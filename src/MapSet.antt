-- ===== src/MapSet.antt =====
-- The sets of texts of the package github.com/deckarep/golang-set, which the program only calls. A
-- set is a value here: no two holders share one, since what leaves its owner is a clone.
pub mod Listed
use ton_indexer.Prelude.{
  ℕ, String, Bool, true, false, ◌||◌, ◌&&◌, not, ◌≡◌, List, length, str_eq, contains, count, ◌≤◌,
}

pub record MapSet : Type 1 where
  pub Carrier : Type 0
  -- NewSet()
  pub new_set : Carrier
  pub add : Carrier → String → Carrier
  pub remove : Carrier → String → Carrier
  pub contains_one : Carrier → String → Bool
  pub cardinality : Carrier → ℕ
  pub clone : Carrier → Carrier
  -- the elements, in the order of Iter
  pub iter : Carrier → List String
  pub contains-new_set : (k : String) → contains_one new_set k ≡ false
  pub contains-add :
      (s : Carrier) (x k : String) → contains_one (add s x) k ≡ (str_eq x k || contains_one s k)
  pub contains-remove :
      (s : Carrier) (x k : String)
      → contains_one (remove s x) k ≡ (not (str_eq x k) && contains_one s k)
  pub contains-clone : (s : Carrier) (k : String) → contains_one (clone s) k ≡ contains_one s k
  pub contains-iter : (s : Carrier) (k : String) → contains (iter s) k ≡ contains_one s k
  pub count-iter : (s : Carrier) (k : String) → count k (iter s) ≤ 1
  pub length-iter : (s : Carrier) → length (iter s) ≡ cardinality s
