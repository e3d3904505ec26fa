-- ===== src/Ttl/SortedSet.antt =====
-- removeKeysFromSortedSet of ton-trace-ttl-tracker/main.go.
use ton_indexer.Prelude.{
  String, Bool, false, ◌||◌, ◌&&◌, Option, none, some, List, [], ◌∷◌, ◌++◌, ◌≡◌, refl, arith,
  if◌then◌else◌, contains, contains-append, contains-nil, ap, ◌∙◌, ◌≢◌, not, str_eq, ok, err,
  eq_iff,
}
use ton_indexer.Prelude.Text.{has_substring}
use ton_indexer.Ttl.World.{World, RedisError, nil_reply, failure}

-- The rounds of the inner loop for one member: it is taken once for each key that it contains.
unfoldable pub taken_for : String → List String → List String
taken_for member [] = []
taken_for member (k ∷ keys) =
    let rest = taken_for member keys in if has_substring member k then member ∷ rest else rest

-- The members to remove.
unfoldable pub members_to_remove : List String → List String → List String
unfolding taken_for
members_to_remove [] expired_keys = []
members_to_remove (member ∷ members) expired_keys =
    taken_for member expired_keys ++ members_to_remove members expired_keys

-- An error that is not nil, of the command that failed.
pub data SetError : Type 0 where
  zrange_failed zrem_failed : RedisError → SetError

module _ (w : World) where
  -- What follows the search: no command if there is nothing to remove, and else one ZREM.
  unfoldable pub remove_members : String → List String → w.State → Option SetError × w.State
  remove_members address [] s = (none, s)
  remove_members address (m ∷ ms) s =
      let (removed, s') = w.zrem address (m ∷ ms) s in
      elim removed [
        | ok _ ↦ (none, s')
        | err nil_reply ↦ (none, s')
        | err (failure e) ↦ (some (zrem_failed (failure e)), s')
      ]

  unfoldable pub remove_keys_from_sorted_set :
      String → List String → w.State → Option SetError × w.State
  unfolding members_to_remove remove_members
  remove_keys_from_sorted_set address expired_keys s =
      let (reply, s') = w.zrange address s in
      elim reply [
        | err nil_reply ↦ (none, s')
        | err (failure e) ↦ (some (zrange_failed (failure e)), s')
        | ok members ↦ remove_members address (members_to_remove members expired_keys) s'
      ]

-- The member contains one of the keys.
pub contains_any : String → List String → Bool
contains_any member [] = false
contains_any member (k ∷ keys) = has_substring member k || contains_any member keys

contains-taken_for :
    (member : String) (keys : List String) (x : String)
    → contains (taken_for member keys) x ≡ (str_eq member x && contains_any member keys)
unfolding taken_for contains_any contains
contains-taken_for member [] x = ground arith
contains-taken_for member (k ∷ keys) x = ground (arith, contains-taken_for member keys x)

pub contains-members_to_remove :
    (members keys : List String) (x : String)
    → contains (members_to_remove members keys) x ≡ (contains members x && contains_any x keys)
unfolding members_to_remove contains
contains-members_to_remove [] keys x = refl
contains-members_to_remove (m ∷ members) keys x = ground (
  arith,
  contains-append (taken_for m keys) (members_to_remove members keys) x,
  contains-taken_for m keys x,
  contains-members_to_remove members keys x,
  eq_iff m x,
)

-- What Redis documents of its sorted sets: ZRANGE changes nothing, and ZREM takes out the members
-- that it is given.
pub record SortedSets (w : World) : Type 0 where
  pub zrange_again :
      (address : String) (members : List String) (s : w.State)
      → (w.zrange address s).0 ≡ ok members
      → (w.zrange address (w.zrange address s).1).0 ≡ ok members
  pub zrange-zrem :
      (address : String) (members gone : List String) (s : w.State)
      → (w.zrange address s).0 ≡ ok members
      → (w.zrem address gone s).0 ≡ ok tt
      → (rest : List String) × ((w.zrange address (w.zrem address gone s).1).0 ≡ ok rest)
        × ((x : String) → contains rest x ≡ (contains members x && not (contains gone x)))

-- Exactly the members that contain none of the keys are left.
abbrev pub Left : List String → List String → List String → Type 0
Left members keys rest =
    (x : String) → contains rest x ≡ (contains members x && not (contains_any x keys))

no_members :
    (members keys : List String) → members_to_remove members keys ≡ [] → Left members keys members
unfolding contains
no_members members keys e x =
    ground
      (arith, contains-members_to_remove members keys x, contains-nil x, ap (λ l. contains l x) e)

-- The set at the address, after an operation that returned no error, is what `P` says.
abbrev pub Leaves :
    (w : World) → String → (List String → Type 0) → Option SetError × w.State → Type 0
Leaves w address P r =
    (r.0 ≡ none) × ((rest : List String) × ((w.zrange address r.1).0 ≡ ok rest) × P rest)

remove_members_correct :
    (w : World) (laws : SortedSets w) (address : String) (keys members gone : List String)
    (s : w.State)
    → (w.zrange address s).0 ≡ ok members
    → members_to_remove members keys ≡ gone
    → (gone ≢ [] → (w.zrem address gone s).0 ≡ ok tt)
    → Leaves w address (Left members keys) (remove_members w address gone s)
unfolding remove_members
remove_members_correct w laws address keys members [] s read e done =
    (refl, (members, read, no_members members keys e))
remove_members_correct w laws address keys members (m ∷ ms) s read e done =
    let removed = done (λ x. cc) in
    let (rest, left, exact) = laws.zrange-zrem address members (m ∷ ms) s read removed in
    rw (removed, remove_members)
      (
        refl,
        (
          rest,
          left,
          λ x.
              exact x
              ∙ ground (arith, contains-members_to_remove members keys x, ap (λ l. contains l x) e),
        ),
      )

-- If the set can be read and ZREM, where there is a member to remove, succeeds, then
-- removeKeysFromSortedSet returns no error and leaves in the set exactly the members that contain
-- none of the expired keys.
pub remove_keys_from_sorted_set_correct :
    (w : World) (laws : SortedSets w) (address : String) (keys members : List String) (s : w.State)
    → (w.zrange address s).0 ≡ ok members
    → (members_to_remove members keys ≢ []
        → (w.zrem address (members_to_remove members keys) (w.zrange address s).1).0 ≡ ok tt)
    → Leaves w address (Left members keys) (remove_keys_from_sorted_set w address keys s)
unfolding remove_keys_from_sorted_set
remove_keys_from_sorted_set_correct w laws address keys members s read done =
    rw (read, remove_keys_from_sorted_set)
      (remove_members_correct w laws address keys members (members_to_remove members keys)
        (w.zrange address s).1 (laws.zrange_again address members s read) refl done)
