-- ===== src/MapSet/Listed.antt =====
-- Lists, read without their duplicates, are such sets: the interface can be met.
use ton_indexer.Prelude.{
  String, false, ◌||◌, ◌&&◌, not, ◌≡◌, refl, List, [], ◌∷◌, length, str_eq, contains, contains-nil,
  count, ◌≤◌, arith, eq_iff, if◌then◌else◌,
}
use ton_indexer.MapSet.{MapSet}

unfoldable pub without : List String → String → List String
without [] x = []
without (y ∷ l) x = let rest = without l x in if str_eq x y then rest else y ∷ rest

unfoldable pub distinct : List String → List String
distinct [] = []
distinct (x ∷ l) = let rest = distinct l in if contains rest x then rest else x ∷ rest

pub contains-cons :
    (l : List String) (x k : String) → contains (x ∷ l) k ≡ (str_eq x k || contains l k)
unfolding contains
contains-cons l x k = refl

pub contains-without :
    (l : List String) (x k : String) → contains (without l x) k ≡ (not (str_eq x k) && contains l k)
unfolding contains without
contains-without [] x k = ground arith
contains-without (y ∷ l) x k =
    ground (arith, contains-without l x k, eq_iff x y, eq_iff x k, eq_iff y k)

pub contains-distinct : (l : List String) (k : String) → contains (distinct l) k ≡ contains l k
unfolding contains distinct
contains-distinct [] k = refl
contains-distinct (x ∷ l) k =
    ground (arith, contains-distinct l k, contains-distinct l x, eq_iff x k)

count_absent : (l : List String) (k : String) → contains l k ≡ false → count k l ≡ 0
unfolding contains count
count_absent [] k h = refl
count_absent (x ∷ l) k h = ground (arith, count_absent l k)

pub count-distinct : (l : List String) (k : String) → count k (distinct l) ≤ 1
unfolding count distinct
count-distinct [] k = omega arith
count-distinct (x ∷ l) k =
    ground (arith, count-distinct l k, count_absent (distinct l) k, eq_iff x k)

abbrev pub list_sets : MapSet
list_sets = record {
  Carrier = List String;
  new_set = [];
  add = λ s x. x ∷ s;
  remove = without;
  contains_one = contains;
  cardinality = λ s. length (distinct s);
  clone = λ s. s;
  iter = distinct;
  contains-new_set = contains-nil;
  contains-add = contains-cons;
  contains-remove = contains-without;
  contains-clone = λ s k. refl;
  contains-iter = contains-distinct;
  count-iter = λ s k. count-distinct s k;
  length-iter = λ s. refl;
}
