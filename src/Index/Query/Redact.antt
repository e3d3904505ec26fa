-- ===== src/Index/Query/Redact.antt =====
-- The texts of a request with their letters hidden, and the filters that are built from them. What is
-- kept of a text is what the builders ask of it: whether it is empty, and whether it is the word null.
use ton_indexer.Prelude.{
  ℕ, String, Bool, true, false, Option, none, some, List, [], ◌∷◌, map, All, if◌then◌else◌, ◌≡◌,
  refl, arith, str_eq, Bool-cases, inl, inr, ◌⊎◌, suc,
}
use mathlib.Core.Option.{map as map_option}
use ton_indexer.Prelude.Int.{ℤ, pos, negsuc}
use ton_indexer.Prelude.Text.{lacks, concat}
use ton_indexer.Prelude.Format.{format_int, format_nat, format_base-lacks, decimals}
use ton_indexer.Index.Query.Request.{Slice}
use ton_indexer.Index.Query.Sql.{
  literal, literals, is_empty, array_query, filter_by_array, opt_filter, nonempty_filter,
  array_filter, slice_filter, either_filter,
}
use ton_indexer.Index.Query.Skeleton.{
  Same, Same-closed, Same-concat, Same-literal, Same-lacks, Same-join, SameAll, same_nil, same_cons,
  QuoteFree,
}

unfoldable pub redact : String → String
redact s = if is_empty s then s else if str_eq s "null" then s else "x"

unfoldable pub redact_slice : Slice String → Slice String
redact_slice v = map_option (map redact) v

redact-cases :
    (s : String)
    → (redact s ≡ s) ⊎ ((redact s ≡ "x") × (is_empty s ≡ false) × (str_eq s "null" ≡ false))
unfolding redact
redact-cases s = elim (Bool-cases (is_empty s)) [
  | inl e ↦ inl (rw e)
  | inr e ↦ elim (Bool-cases (str_eq s "null")) [
    | inl n ↦ inl (rw (e, n))
    | inr n ↦ inr (rw (e, n), e, n)
  ]
]

pub QuoteFree-redact : (s : String) → QuoteFree s → QuoteFree (redact s)
unfolding lacks
QuoteFree-redact s h = elim (redact-cases s) [ inl e ↦ rw e h | inr (e, _, _) ↦ rw e ]

pub is_empty-redact : (s : String) → is_empty (redact s) ≡ is_empty s
is_empty-redact s = elim (redact-cases s) [ inl e ↦ rw e | inr (e, n, _) ↦ rw (e, n) ]

pub null-redact : (s : String) → str_eq (redact s) "null" ≡ str_eq s "null"
null-redact s = elim (redact-cases s) [ inl e ↦ rw e | inr (e, _, n) ↦ rw (e, n) ]

format_nat-lacks : (m : ℕ) → QuoteFree (format_nat m)
unfolding format_nat lacks
format_nat-lacks m = format_base-lacks b'\'' decimals 10 20 m "" refl refl

pub format_int-lacks : (n : ℤ) → QuoteFree (format_int n)
unfolding format_int lacks
format_int-lacks (pos m) = format_nat-lacks m
format_int-lacks (negsuc m) = format_nat-lacks (suc m)

pub Same-format_int : (n : ℤ) → Same (format_int n) (format_int n)
Same-format_int n = Same-lacks (format_int n) (format_int-lacks n)

pub literals-redact :
    (values : List String)
    → All QuoteFree values
    → SameAll (literals values) (literals (map redact values))
unfolding literals
literals-redact [] h = same_nil
literals-redact (x ∷ values) (h, hs) =
    let rest = literals-redact values hs in
    elim (Bool-cases (is_empty x)) [
      | inl e ↦ rw (is_empty-redact x, e) rest
      | inr e ↦
          rw (is_empty-redact x, e)
            (same_cons (Same-literal x (redact x) h (QuoteFree-redact x h)) rest)
    ]

pub Same-array_query :
    {clmn : String} {l m : List String}
    → Same clmn clmn
    → SameAll l m
    → Same (array_query clmn l) (array_query clmn m)
unfolding array_query
Same-array_query c same_nil = Same-closed "" refl
Same-array_query c (same_cons p same_nil) = Same-concat c (Same-concat (Same-closed " = " refl) p)
Same-array_query c (same_cons p (same_cons q r)) = Same-concat c (
    Same-concat (Same-closed " in (" refl) (
      Same-concat (Same-join "," (Same-closed "," refl) (same_cons p (same_cons q r)))
        (Same-closed ")" refl)))

pub Same-filter_by_array :
    (clmn : String) (values : List String)
    → Same clmn clmn
    → All QuoteFree values
    → Same (filter_by_array clmn values) (filter_by_array clmn (map redact values))
unfolding filter_by_array
Same-filter_by_array clmn values c h = Same-array_query c (literals-redact values h)

pub Same-either_filter :
    (c c' : String) (values : List String)
    → Same c c
    → Same c' c'
    → All QuoteFree values
    → Same (either_filter c c' values) (either_filter c c' (map redact values))
unfolding either_filter
Same-either_filter c c' values p q h = Same-concat (Same-closed "(" refl) (
    Same-concat (Same-filter_by_array c values p h) (
      Same-concat (Same-closed " or " refl)
        (Same-concat (Same-filter_by_array c' values q h) (Same-closed ")" refl))))

pub SameAll-array_filter :
    (clmn : String) {l m : List String}
    → is_empty clmn ≡ false
    → Same clmn clmn
    → SameAll l m
    → SameAll (nonempty_filter (array_query clmn l)) (nonempty_filter (array_query clmn m))
unfolding nonempty_filter array_query concat
SameAll-array_filter clmn e c same_nil = same_nil
SameAll-array_filter String.[] e c (same_cons p r) = ground arith
SameAll-array_filter (String.◌∷◌ d clmn) e c (same_cons p same_nil) =
    same_cons (Same-array_query c (same_cons p same_nil)) same_nil
SameAll-array_filter (String.◌∷◌ d clmn) e c (same_cons p (same_cons q r)) =
    same_cons (Same-array_query c (same_cons p (same_cons q r))) same_nil

-- What holds of a value that the request has.
abbrev pub IfSome : {A : Type 0} → (A → Type 0) → Option A → Type 0
IfSome P none = Unit
IfSome P (some v) = P v

pub SameAll-slice_filter :
    (clmn : String) (v : Slice String)
    → is_empty clmn ≡ false
    → Same clmn clmn
    → IfSome (All QuoteFree) v
    → SameAll (slice_filter clmn v) (slice_filter clmn (redact_slice v))
unfolding slice_filter array_filter filter_by_array redact_slice
SameAll-slice_filter clmn none e c h = same_nil
SameAll-slice_filter clmn (some values) e c h =
    SameAll-array_filter clmn e c (literals-redact values h)

pub SameAll-opt_either :
    (v : Slice String) (c c' : String)
    → Same c c
    → Same c' c'
    → IfSome (All QuoteFree) v
    → SameAll (opt_filter v (either_filter c c')) (opt_filter (redact_slice v) (either_filter c c'))
unfolding redact_slice
SameAll-opt_either none c c' p q h = same_nil
SameAll-opt_either (some values) c c' p q h =
    same_cons (Same-either_filter c c' values p q h) same_nil

pub SameAll-opt_text :
    (v : Option String) (f : String → String)
    → IfSome QuoteFree v
    → ((s : String) → QuoteFree s → Same (f s) (f (redact s)))
    → SameAll (opt_filter v f) (opt_filter (map_option redact v) f)
SameAll-opt_text none f h k = same_nil
SameAll-opt_text (some v) f h k = same_cons (k v h) same_nil

pub SameAll-opt_filter :
    {A : Type 0} (v : Option A) (f : A → String)
    → ((a : A) → Same (f a) (f a))
    → SameAll (opt_filter v f) (opt_filter v f)
SameAll-opt_filter none f k = same_nil
SameAll-opt_filter (some v) f k = same_cons (k v) same_nil

pub Same-redact : (s : String) → QuoteFree s → Same (literal s) (literal (redact s))
Same-redact s h = Same-literal s (redact s) h (QuoteFree-redact s h)

pub Same-if :
    {s s' t t' : String} (b : Bool)
    → Same s s'
    → Same t t'
    → Same (if b then s else t) (if b then s' else t')
Same-if true p q = p
Same-if false p q = q
