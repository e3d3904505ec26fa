-- ===== src/Index/Query/Parts.antt =====
-- The filters that the builders of ton-index-go/index/crud.go share keep the skeleton, and the tests
-- that they make on a request do not see its texts.
use ton_indexer.Prelude.{
  String, Bool, true, false, Option, none, some, List, [], ◌∷◌, map, All, if◌then◌else◌, ◌≡◌, refl,
  ap, arith, str_eq, Bool-cases, inl, inr,
}
use mathlib.Core.Option.{map as map_option}
use ton_indexer.Prelude.Text.{concat}
use ton_indexer.Index.Query.Request.{Slice}
use ton_indexer.Index.Query.Sql.{is_empty, array_query, filter_by_array, array_filter}
use ton_indexer.Index.Query.Skeleton.{
  Same, Same-closed, Same-concat, Same-literal, Same-lacks, Same-join, SameAll, same_nil, same_cons,
  SameAll-append, QuoteFree, skeleton, Same-where_query,
}
use ton_indexer.Index.Query.Redact.{
  redact, redact_slice, IfSome, Same-redact, Same-format_int, Same-filter_by_array,
  Same-either_filter, SameAll-array_filter, SameAll-slice_filter, SameAll-opt_either,
  SameAll-opt_text, SameAll-opt_filter, Same-if, is_empty-redact, QuoteFree-redact, literals-redact,
}
use ton_indexer.Index.Query.Sql.{
  has_values, has_one, has_text, is_some, time_filters, pair_filters, owner_filters,
  message_hash_filters, replaced_by, flag_filter,
}
use ton_indexer.Index.Query.Request.{UtimeRequest, LtRequest}
use ton_indexer.Prelude.{not}

pub is_some-map : {A B : Type 0} (f : A → B) (v : Option A) → is_some (map_option f v) ≡ is_some v
unfolding is_some
is_some-map f none = refl
is_some-map f (some v) = refl

pub is_some-redact_slice : (v : Slice String) → is_some (redact_slice v) ≡ is_some v
unfolding redact_slice
is_some-redact_slice v = is_some-map (map redact) v

pub has_values-redact_slice : (v : Slice String) → has_values (redact_slice v) ≡ has_values v
unfolding has_values redact_slice
has_values-redact_slice none = refl
has_values-redact_slice (some []) = refl
has_values-redact_slice (some (x ∷ values)) = refl

pub has_one-redact_slice : (v : Slice String) → has_one (redact_slice v) ≡ has_one v
unfolding has_one redact_slice
has_one-redact_slice none = refl
has_one-redact_slice (some []) = refl
has_one-redact_slice (some (x ∷ [])) = refl
has_one-redact_slice (some (x ∷ y ∷ values)) = refl

pub has_text-redact : (v : Option String) → has_text (map_option redact v) ≡ has_text v
unfolding has_text
has_text-redact none = refl
has_text-redact (some s) = ap not (is_empty-redact s)

pub ruleset redact_laws = (
  is_some-map, is_some-redact_slice, has_values-redact_slice, has_one-redact_slice, has_text-redact,
)

pub SameAll-time_filters :
    (c c' : String) (utime : UtimeRequest) (lt : LtRequest)
    → Same c c
    → Same c' c'
    → SameAll (time_filters c c' utime lt) (time_filters c c' utime lt)
unfolding time_filters
SameAll-time_filters c c' utime lt p q =
    search (Same-closed, Same-concat, Same-format_int, SameAll-append, SameAll-opt_filter) depth 12

SameAll-pair :
    (c c' : String) {l m : List String} {s t : String}
    → is_empty c ≡ false
    → SameAll l m
    → Same s t
    → SameAll
        (if is_empty (array_query c l) then [] else s ∷ [])
        (if is_empty (array_query c m) then [] else t ∷ [])
unfolding array_query concat
SameAll-pair c c' e same_nil q = same_nil
SameAll-pair String.[] c' e (same_cons p r) q = ground arith
SameAll-pair (String.◌∷◌ d c) c' e (same_cons p same_nil) q = same_cons q same_nil
SameAll-pair (String.◌∷◌ d c) c' e (same_cons p (same_cons p' r)) q = same_cons q same_nil

SameAll-pair_filters :
    (c c' : String) (values : List String)
    → is_empty c ≡ false
    → Same c c
    → Same c' c'
    → All QuoteFree values
    → SameAll (pair_filters c c' values) (pair_filters c c' (map redact values))
unfolding pair_filters filter_by_array
SameAll-pair_filters c c' values e p q h =
    SameAll-pair c c' e (literals-redact values h) (Same-either_filter c c' values p q h)

pub SameAll-owner_filters :
    (c c' : String) (v : Slice String) (direction : Option String)
    → is_empty c ≡ false
    → is_empty c' ≡ false
    → Same c c
    → Same c' c'
    → IfSome (All QuoteFree) v
    → SameAll (owner_filters c c' v direction) (owner_filters c c' (redact_slice v) direction)
unfolding owner_filters redact_slice array_filter filter_by_array
SameAll-owner_filters c c' none direction e e' p q h = same_nil
SameAll-owner_filters c c' (some values) none e e' p q h = SameAll-pair_filters c c' values e p q h
SameAll-owner_filters c c' (some values) (some d) e e' p q h = elim (Bool-cases (str_eq d "in")) [
  | inl i ↦ rw i (SameAll-array_filter c' e' q (literals-redact values h))
  | inr i ↦ rw i (SameAll-array_filter c e p (literals-redact values h))
]

pub SameAll-message_hash_filters :
    (v : Slice String)
    → IfSome (All QuoteFree) v
    → SameAll (message_hash_filters v) (message_hash_filters (redact_slice v))
unfolding message_hash_filters redact_slice
SameAll-message_hash_filters none h = same_nil
SameAll-message_hash_filters (some []) h = same_nil
SameAll-message_hash_filters (some (x ∷ values)) h =
    same_cons
      (Same-either_filter "M.msg_hash" "M.msg_hash_norm" (x ∷ values) (Same-closed _ refl)
        (Same-closed _ refl) h)
      same_nil

pub SameAll-replaced_by :
    {l m l' m' : List String}
    → SameAll l m
    → SameAll l' m'
    → SameAll (replaced_by l l') (replaced_by m m')
unfolding replaced_by
SameAll-replaced_by p same_nil = p
SameAll-replaced_by p (same_cons q r) = same_cons q r

pub SameAll-flag_filter :
    (flag : Option Bool) (s : String) → Same s s → SameAll (flag_filter flag s) (flag_filter flag s)
SameAll-flag_filter none s h = same_nil
SameAll-flag_filter (some true) s h = same_cons h same_nil
SameAll-flag_filter (some false) s h = same_nil

pub ruleset same_rules = (
  Same-if, Same-closed, Same-concat, Same-where_query, Same-redact, Same-format_int,
  Same-filter_by_array, Same-either_filter, same_nil, same_cons, SameAll-append,
  SameAll-slice_filter, SameAll-opt_text, SameAll-opt_filter, SameAll-opt_either,
  SameAll-time_filters, SameAll-owner_filters, SameAll-message_hash_filters, SameAll-replaced_by,
  SameAll-flag_filter,
)
