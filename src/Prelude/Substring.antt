-- ===== src/Prelude/Substring.antt =====
-- strings.Contains of Prelude/Text, and the parts of a text.
use Prim.Native.Char.{code}
use Prim.Native.String.{String}
use mathlib.Core.Path.{◌≡◌, refl, ap}
use mathlib.Core.Logic.{inl, inr, ◌↔◌}
use mathlib.Core.Bool.{true}
use native.Mathlib.Omega.{arith}
use text.Mathlib.TextEquality.{Char-path}
use ton_indexer.Prelude.Tests.{==_iff, Bool-cases}
use ton_indexer.Prelude.Text.{concat, has_prefix, has_substring}

-- The text is p with something before and after it.
pub record HasPart (s p : String) : Type 0 where
  pub before : String
  pub later : String
  pub whole : s ≡ concat before (concat p later)

has_prefix-rest : (s p : String) → has_prefix s p ≡ true → (later : String) × (s ≡ concat p later)
unfolding has_prefix concat
has_prefix-rest s String.[] h = (s, refl)
has_prefix-rest String.[] (String.◌∷◌ c p) h = absurd (ground arith)
has_prefix-rest (String.◌∷◌ d s) (String.◌∷◌ c p) h =
    let same : code d ≡ code c = ground (arith, ==_iff (code d) (code c)) in
    let (later, e) = has_prefix-rest s p (ground arith) in (later, rw (Char-path d c same, e) refl)

has_prefix-concat : (p later : String) → has_prefix (concat p later) p ≡ true
unfolding has_prefix concat
has_prefix-concat String.[] later = refl
has_prefix-concat (String.◌∷◌ c p) later =
    ground (arith, has_prefix-concat p later, ==_iff (code c) (code c))

has_substring-parts : (s p : String) → has_substring s p ≡ true → HasPart s p
unfolding has_substring concat
has_substring-parts String.[] p h =
    let (later, e) = has_prefix-rest String.[] p h in
    record { before = String.[]; later = later; whole = e }
has_substring-parts (String.◌∷◌ c s) p h = elim (Bool-cases (has_prefix (String.◌∷◌ c s) p)) [
  | inl e ↦
      let (later, q) = has_prefix-rest (String.◌∷◌ c s) p e in
      record { before = String.[]; later = later; whole = q }
  | inr e ↦
      let part = has_substring-parts s p (ground arith) in
      record {
        before = String.◌∷◌ c part.before;
        later = part.later;
        whole = ap (String.◌∷◌ c) part.whole;
      }
]

has_prefix-has_substring : (s p : String) → has_prefix s p ≡ true → has_substring s p ≡ true
unfolding has_substring
has_prefix-has_substring String.[] p h = h
has_prefix-has_substring (String.◌∷◌ c s) p h = ground arith

has_substring-concat :
    (before p later : String) → has_substring (concat before (concat p later)) p ≡ true
unfolding has_substring concat
has_substring-concat String.[] p later =
    has_prefix-has_substring (concat p later) p (has_prefix-concat p later)
has_substring-concat (String.◌∷◌ c before) p later =
    ground (arith, has_substring-concat before p later)

pub has_substring-HasPart : (s p : String) → (has_substring s p ≡ true) ↔ HasPart s p
has_substring-HasPart s p =
    (has_substring-parts s p, λ part. rw part.whole (has_substring-concat part.before p part.later))
