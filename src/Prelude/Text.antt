-- ===== src/Prelude/Text.antt =====
-- Go's strings package, as far as the program uses it, over the characters of a text. A search for
-- a valid UTF-8 text finds whole characters, so it may go by characters instead of bytes.
use Prim.Native.Nat.{ℕ}
use Prim.Native.Char.{Char, code}
use Prim.Native.String.{String}
use mathlib.Core.Path.{◌≡◌, refl, ap, ◌∙◌}
use mathlib.Core.Logic.{inl, inr}
use mathlib.Core.Bool.{Bool, true, false, ◌&&◌, ◌||◌}
use mathlib.Core.List.{List, [], ◌∷◌}
use native.Mathlib.Omega.{arith}
use ton_indexer.Prelude.Tests.{◌==◌, ==_iff, if◌then◌else◌, Bool-cases}

-- strings.HasPrefix(s, p)
unfoldable pub has_prefix : String → String → Bool
has_prefix s String.[] = true
has_prefix String.[] (String.◌∷◌ c p) = false
has_prefix (String.◌∷◌ d s) (String.◌∷◌ c p) = code d == code c && has_prefix s p

-- strings.Contains(s, p)
unfoldable pub has_substring : String → String → Bool
unfolding has_prefix
has_substring String.[] p = has_prefix String.[] p
has_substring (String.◌∷◌ c s) p = has_prefix (String.◌∷◌ c s) p || has_substring s p

-- s1 + s2
unfoldable pub concat : String → String → String
concat String.[] t = t
concat (String.◌∷◌ c s) t = String.◌∷◌ c (concat s t)

unfoldable pub prepend : Char → List String → List String
prepend c [] = String.◌∷◌ c String.[] ∷ []
prepend c (s ∷ rest) = String.◌∷◌ c s ∷ rest

-- strings.Split(s, sep) for a separator of one character, given by its code point
unfoldable pub split : ℕ → String → List String
unfolding prepend
split sep String.[] = String.[] ∷ []
split sep (String.◌∷◌ c s) =
    let rest = split sep s in if code c == sep then String.[] ∷ rest else prepend c rest

-- No character of the text is the separator.
unfoldable pub lacks : ℕ → String → Bool
lacks sep String.[] = true
lacks sep (String.◌∷◌ c s) = (if code c == sep then false else true) && lacks sep s

split_test : split b';' "a;b" ≡ "a" ∷ "b" ∷ []
unfolding split
split_test = refl

substring_test : has_substring "0xab:tr" "ab:" ≡ true
unfolding has_substring
substring_test = refl

pub split-lacks : (sep : ℕ) (s : String) → lacks sep s ≡ true → split sep s ≡ s ∷ []
unfolding split lacks
split-lacks sep String.[] h = refl
split-lacks sep (String.◌∷◌ c s) h = ground (arith, split-lacks sep s)

pub split-concat :
    (sep : ℕ) (c : Char) (s t : String)
    → lacks sep s ≡ true
    → code c ≡ sep
    → split sep (concat s (String.◌∷◌ c t)) ≡ s ∷ split sep t
unfolding split lacks concat
split-concat sep c String.[] t h e = ground arith
split-concat sep c (String.◌∷◌ d s) t h e = ground (arith, split-concat sep c s t)

-- Split returns at least one part.
pub split-eq-cons :
    (sep : ℕ) (s : String) → (x : String) × ((l : List String) × (split sep s ≡ x ∷ l))
unfolding split
split-eq-cons sep String.[] = (String.[], ([], refl))
split-eq-cons sep (String.◌∷◌ c s) = elim (Bool-cases (code c == sep)) [
  | inl e ↦ (String.[], (split sep s, rw e))
  | inr e ↦ let (x, (l, p)) = split-eq-cons sep s in (String.◌∷◌ c x, (l, rw e (rw (p, prepend))))
]

-- A text that the first separator in it divides.
pub record Divides (sep : ℕ) (s first rest : String) : Type 0 where
  pub separator : Char
  pub is_separator : code separator ≡ sep
  pub whole : s ≡ concat first (String.◌∷◌ separator rest)
  pub undivided : lacks sep first ≡ true

pub Divides-split :
    {sep : ℕ} {s first rest : String}
    → Divides sep s first rest
    → split sep s ≡ first ∷ split sep rest
Divides-split {sep} {s} {first} {rest} d =
    rw d.whole (split-concat sep d.separator first rest d.undivided d.is_separator)

-- A first part that others follow is divided from them.
pub split-Divides :
    (sep : ℕ) (s first second : String) (more : List String)
    → split sep s ≡ first ∷ second ∷ more
    → (rest : String) × Divides sep s first rest × (split sep rest ≡ second ∷ more)
unfolding split lacks concat
split-Divides sep String.[] first second more h = ground arith
split-Divides sep (String.◌∷◌ c s) first second more h = elim (Bool-cases (code c == sep)) [
  | inl e ↦
      let q : String.[] ∷ split sep s ≡ first ∷ second ∷ more = rw e at h in
      let empty : first ≡ String.[] = cc q in
      (
        s,
        rw empty (record {
          separator = c;
          is_separator = (==_iff (code c) sep).0 e;
          whole = refl;
          undivided = refl;
        }),
        cc q,
      )
  | inr e ↦
      let (x, (l, p)) = split-eq-cons sep s in
      let q : String.◌∷◌ c x ∷ l ≡ first ∷ second ∷ more = rw (e, p, prepend) at h in
      let starts : first ≡ String.◌∷◌ c x = cc q in
      let tail : l ≡ second ∷ more = cc q in
      let (rest, d, r) = split-Divides sep s x second more (p ∙ ap (◌∷◌ x) tail) in
      (
        rest,
        rw starts (record {
          separator = d.separator;
          is_separator = d.is_separator;
          whole = ap (String.◌∷◌ c) d.whole;
          undivided = rw e d.undivided;
        }),
        r,
      )
]

-- A text that is all of its parts.
pub split-whole :
    (sep : ℕ) (s first : String) → split sep s ≡ first ∷ [] → (s ≡ first) × (lacks sep s ≡ true)
unfolding split lacks
split-whole sep String.[] first h = (cc h, refl)
split-whole sep (String.◌∷◌ c s) first h = elim (Bool-cases (code c == sep)) [
  | inl e ↦
      let (x, (l, p)) = split-eq-cons sep s in
      let q : String.[] ∷ x ∷ l ≡ first ∷ [] = rw (e, p) at h in ground arith
  | inr e ↦
      let (x, (l, p)) = split-eq-cons sep s in
      let q : String.◌∷◌ c x ∷ l ≡ first ∷ [] = rw (e, p, prepend) at h in
      let none_left : l ≡ [] = cc q in
      let (same, h') = split-whole sep s x (p ∙ ap (◌∷◌ x) none_left) in
      (ap (String.◌∷◌ c) same ∙ cc q, rw e h')
]

trim_left : String → String
trim_left String.[] = String.[]
trim_left (String.◌∷◌ c s) =
    let rest = trim_left s in if code c == b' ' then rest else String.◌∷◌ c s

trim_right : String → String
trim_right String.[] = String.[]
trim_right (String.◌∷◌ c s) = elim (trim_right s) [
  | String.[] ↦ if code c == b' ' then String.[] else String.◌∷◌ c String.[]
  | String.◌∷◌ d t ↦ String.◌∷◌ c (String.◌∷◌ d t)
]

-- strings.Trim(s, " ")
unfoldable pub trim : String → String
unfolding trim_left trim_right
trim s = trim_right (trim_left s)

trim_test : trim "  a b " ≡ "a b"
unfolding trim
trim_test = refl
