-- ===== src/Index/Query/Skeleton.antt =====
-- The part of an SQL text that stands outside its quoted literals, as PostgreSQL scans it: a quote
-- opens and closes a literal, and a doubled one inside does both. `Same` relates two texts that put
-- the same SQL around their literals; each part of a builder keeps it.
use ton_indexer.Prelude.{
  ℕ, String, Bool, true, false, not, List, [], ◌∷◌, ◌++◌, ◌==◌, if◌then◌else◌, ◌≡◌, refl, ap, sym,
  ◌∙◌, arith, ◌||◌,
}
use Prim.Native.Char.{code}
use ton_indexer.Prelude.Text.{concat, lacks}
use ton_indexer.Index.Query.Sql.{◌<>◌, literal, join, where_query}

-- What a character leaves of the skeleton: quotes, and what is outside of a literal.
unfoldable pub skeleton : Bool → String → List ℕ
skeleton inside String.[] = []
skeleton inside (String.◌∷◌ c s) =
    let rest = skeleton (if code c == b'\'' then not inside else inside) s in
    if code c == b'\'' || not inside then code c ∷ rest else rest

abbrev pub closed : Bool → String → Bool
closed inside String.[] = not inside
closed inside (String.◌∷◌ c s) = closed (if code c == b'\'' then not inside else inside) s

pub record Same (s t : String) : Type 0 where
  pub at :
      (u v : String)
      → skeleton false u ≡ skeleton false v
      → skeleton false (s <> u) ≡ skeleton false (t <> v)

skeleton-closed :
    (inside : Bool) (s u v : String)
    → closed inside s ≡ true
    → skeleton false u ≡ skeleton false v
    → skeleton inside (s <> u) ≡ skeleton inside (s <> v)
unfolding skeleton concat
skeleton-closed false String.[] u v h e = e
skeleton-closed true String.[] u v h e = ground arith
skeleton-closed inside (String.◌∷◌ c s) u v h e =
    ap (λ rest. if code c == b'\'' || not inside then code c ∷ rest else rest)
      (skeleton-closed (if code c == b'\'' then not inside else inside) s u v h e)

pub Same-closed : (s : String) → closed false s ≡ true → Same s s
Same-closed s h = record { at = λ u v. skeleton-closed false s u v h }

pub concat_assoc : (s t u : String) → (s <> t) <> u ≡ s <> (t <> u)
unfolding concat
concat_assoc String.[] t u = refl
concat_assoc (String.◌∷◌ c s) t u = ap (String.◌∷◌ c) (concat_assoc s t u)

pub Same-concat : {s s' t t' : String} → Same s s' → Same t t' → Same (s <> t) (s' <> t')
Same-concat {s = s} {s' = s'} {t = t} {t' = t'} p q = record {
  at = λ u v e. rw (concat_assoc s t u, concat_assoc s' t' v) (p.at _ _ (q.at u v e));
}

abbrev pub QuoteFree : String → Type 0
QuoteFree s = lacks b'\'' s ≡ true

closed-lacks : (s : String) → QuoteFree s → closed false s ≡ true
unfolding lacks
closed-lacks String.[] h = refl
closed-lacks (String.◌∷◌ c s) h = ground (arith, closed-lacks s)

pub Same-lacks : (s : String) → QuoteFree s → Same s s
Same-lacks s h = Same-closed s (closed-lacks s h)

skeleton-inside :
    (s u : String) → QuoteFree s → skeleton true (s <> ("'" <> u)) ≡ b'\'' ∷ skeleton false u
unfolding skeleton concat lacks
skeleton-inside String.[] u h = refl
skeleton-inside (String.◌∷◌ c s) u h = ground (arith, skeleton-inside s u)

skeleton-open : (t : String) → skeleton false ("'" <> t) ≡ b'\'' ∷ skeleton true t
unfolding skeleton concat
skeleton-open t = refl

literal_lem :
    (s u : String)
    → QuoteFree s
    → skeleton false (literal s <> u) ≡ b'\'' ∷ b'\'' ∷ skeleton false u
unfolding literal
literal_lem s u h =
    rw (concat_assoc "'" (s <> "'") u, concat_assoc s "'" u, skeleton-open, skeleton-inside s u h)

pub Same-literal : (s t : String) → QuoteFree s → QuoteFree t → Same (literal s) (literal t)
Same-literal s t h k = record {
  at = λ u v e. literal_lem s u h ∙ ap (λ l. b'\'' ∷ b'\'' ∷ l) e ∙ sym (literal_lem t v k);
}

pub data SameAll : List String → List String → Type 0 where
  same_nil : SameAll [] []
  same_cons : {s t : String} {l m : List String} → Same s t → SameAll l m → SameAll (s ∷ l) (t ∷ m)

pub SameAll-append :
    {l l' m m' : List String} → SameAll l l' → SameAll m m' → SameAll (l ++ m) (l' ++ m')
SameAll-append same_nil q = q
SameAll-append (same_cons p r) q = same_cons p (SameAll-append r q)

pub Same-join :
    {l m : List String} (sep : String) → Same sep sep → SameAll l m → Same (join l sep) (join m sep)
unfolding join
Same-join sep p same_nil = Same-closed "" refl
Same-join sep p (same_cons q same_nil) = q
Same-join sep p (same_cons q (same_cons r rest)) =
    Same-concat q (Same-concat p (Same-join sep p (same_cons r rest)))

pub Same-where_query : {l m : List String} → SameAll l m → Same (where_query l) (where_query m)
unfolding where_query
Same-where_query same_nil = Same-closed "" refl
Same-where_query (same_cons q rest) =
    Same-concat (Same-closed " where " refl)
      (Same-join " and " (Same-closed " and " refl) (same_cons q rest))
