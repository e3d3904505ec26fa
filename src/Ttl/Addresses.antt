-- ===== src/Ttl/Addresses.antt =====
-- AddressCollector of ton-trace-ttl-tracker/main.go: key -> set of addresses.
use ton_indexer.Prelude.{
  Option, none, some, String, List, [], ◌∷◌, ◌≡◌, Bool, ◌||◌, false, arith, Option-cases, inl, inr,
  contains, str_eq, eq_iff, if◌then◌else◌,
}
use ton_indexer.Prelude.GoMap.{GoMap, lookup, insert, delete, lookup-insert, lookup-delete}
use ton_indexer.MapSet.{MapSet}

module _ (sets : MapSet) where
  open sets use {Carrier, new_set, add, contains_one, clone}

  -- NewAddressCollector
  abbrev pub new_address_collector : GoMap Carrier
  new_address_collector = []

  -- for _, addr := range addresses { setForKey.Add(addr) }
  unfoldable pub add_all : Carrier → List String → Carrier
  add_all s [] = s
  add_all s (addr ∷ addresses) = add_all (add s addr) addresses

  -- MergeAddresses
  unfoldable pub merge_addresses : GoMap Carrier → String → List String → GoMap Carrier
  unfolding add_all
  merge_addresses m key addresses = elim (lookup key m) [
    | none ↦ insert key (add_all new_set addresses) m
    | some s ↦ insert key (add_all s addresses) m
  ]

  -- GetAddresses
  unfoldable pub get_addresses : GoMap Carrier → String → Carrier
  get_addresses m key = elim (lookup key m) [ none ↦ new_set | some s ↦ clone s ]

  -- RemoveKey
  unfoldable pub remove_key : GoMap Carrier → String → GoMap Carrier
  remove_key m key = delete key m

  contains-add_all :
      (s : Carrier) (l : List String) (k : String)
      → contains_one (add_all s l) k ≡ (contains_one s k || contains l k)
  unfolding add_all contains
  contains-add_all s [] k = ground arith
  contains-add_all s (x ∷ l) k =
      ground (arith, contains-add_all (add s x) l k, sets.contains-add s x k)

  -- What GetAddresses shows of a key.
  pub shown : Option Carrier → String → Bool
  shown none a = false
  shown (some s) a = contains_one s a

  pub get_addresses-shown :
      (m : GoMap Carrier) (k a : String) → contains_one (get_addresses m k) a ≡ shown (lookup k m) a
  unfolding get_addresses shown
  get_addresses-shown m k a = elim (Option-cases (lookup k m)) [
    | inl e ↦ rw (e, get_addresses) (sets.contains-new_set a)
    | inr (s, e) ↦ rw (e, get_addresses) (sets.contains-clone s a)
  ]

  lookup-merge_addresses :
      (m : GoMap Carrier) (key : String) (addresses : List String) (k a : String)
      → shown (lookup k (merge_addresses m key addresses)) a
        ≡ (shown (lookup k m) a || (if str_eq key k then contains addresses a else false))
  unfolding shown merge_addresses
  lookup-merge_addresses m key addresses k a = elim (Option-cases (lookup key m)) [
    | inl e ↦
        rw (e, merge_addresses)
          (ground (
            arith,
            eq_iff key k,
            lookup-insert key k (add_all new_set addresses) m,
            contains-add_all new_set addresses a,
            sets.contains-new_set a,
          ))
    | inr (s, e) ↦
        rw (e, merge_addresses)
          (ground (
            arith,
            eq_iff key k,
            lookup-insert key k (add_all s addresses) m,
            contains-add_all s addresses a,
          ))
  ]

  -- An address is collected for a key exactly if it was before, or it is one of those merged into
  -- that key.
  pub get_addresses-merge_addresses :
      (m : GoMap Carrier) (key : String) (addresses : List String) (k a : String)
      → contains_one (get_addresses (merge_addresses m key addresses) k) a ≡ (
          contains_one (get_addresses m k) a
          || (if str_eq key k then contains addresses a else false))
  get_addresses-merge_addresses m key addresses k a =
      rw (get_addresses-shown (merge_addresses m key addresses) k a, get_addresses-shown m k a)
        (lookup-merge_addresses m key addresses k a)

  -- RemoveKey forgets the addresses of its key, and of no other.
  pub get_addresses-remove_key :
      (m : GoMap Carrier) (key k a : String)
      → contains_one (get_addresses (remove_key m key) k) a
        ≡ (if str_eq key k then false else contains_one (get_addresses m k) a)
  unfolding remove_key shown
  get_addresses-remove_key m key k a =
      rw (get_addresses-shown (delete key m) k a, get_addresses-shown m k a)
        (ground (arith, lookup-delete key k m))
