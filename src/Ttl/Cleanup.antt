-- ===== src/Ttl/Cleanup.antt =====
-- RedisCleanupTool of ton-trace-ttl-tracker/main.go. The tool reads the map of the ExpiryTracker
-- while the tracker works: `latest_at` is the map as it is in a state of the world.
pub mod Stalled
pub mod Members
use ton_indexer.Prelude.{
  ℕ, zero, suc, ◌≤◌, String, Bool, true, false, ◌||◌, ◌&&◌, not, Option, none, some, List, [], ◌∷◌,
  ◌++◌, str_eq, if◌then◌else◌, ok, err, Result, length, leb, ◌==◌,
}
use ton_indexer.Prelude.Text.{split, has_substring}
use ton_indexer.Prelude.GoMap.{GoMap, lookup, insert}
use ton_indexer.Ttl.Heap.{Time}
use ton_indexer.Ttl.World.{World, RedisError, Reply}

pub record RedisSnapshot : Type 0 where
  pub keys : GoMap (Unit {0})
  pub set_contents : GoMap (GoMap Bool)

abbrev pub empty_snapshot : RedisSnapshot
empty_snapshot = record { keys = []; set_contents = [] }

-- _, exists := m[k]
abbrev pub has_key {ℓ} : {V : Type ℓ} → String → GoMap V → Bool
has_key k m = elim (lookup k m) [ none ↦ false | some _ ↦ true ]

-- memberMap[member] = true, for each member
unfoldable pub member_map : List String → GoMap Bool → GoMap Bool
member_map [] m = m
member_map (x ∷ members) m = member_map members (insert x true m)

-- oldMembers and newMembers: newMembers[member] is false for a missing member
unfoldable pub is_member : String → GoMap Bool → Bool
is_member x m = elim (lookup x m) [ none ↦ false | some b ↦ b ]

-- extractTraceKeysFromMember
unfoldable pub extract_trace_keys_from_member : String → String → String
extract_trace_keys_from_member set_key member = elim (split b':' member) [
  | [] ↦ ""
  | trace_id ∷ rest ↦ elim rest [ [] ↦ "" | _ ∷ _ ↦ trace_id ]
]

-- Keys that a snapshot leaves out by their names.
unfoldable pub is_index_key : String → Bool
is_index_key key = has_substring key "tr_in_msg" || has_substring key "tr_root_tx"

module _ (w : World) (latest_at : w.State → GoMap Time) where
  open w use {State}

  -- isKeyBeingTracked
  unfoldable pub is_key_being_tracked : String → State → Bool
  is_key_being_tracked key s = has_key key (latest_at s)

  -- isTraceDataKey
  unfoldable pub is_trace_data_key : String → State → Bool × State
  is_trace_data_key key s =
      let (reply, s') = w.hexists key "root_node" s in
      (elim reply [ ok exists ↦ exists | err _ ↦ false ], s')

  -- The members of a set or a sorted set, recorded unless the command fails.
  unfoldable pub record_members : RedisSnapshot → String → Reply (List String) → RedisSnapshot
  unfolding member_map
  record_members snapshot key (err _) = snapshot
  record_members snapshot key (ok members) = record snapshot {
    set_contents = insert key (member_map members []) snapshot.set_contents;
  }

  -- takeSnapshot, from the type of a key on
  unfoldable pub snapshot_members :
      RedisSnapshot → String → Reply String → State → RedisSnapshot × State
  unfolding record_members
  snapshot_members snapshot key (err _) s = (snapshot, s)
  snapshot_members snapshot key (ok key_type) s =
      if str_eq key_type "set"
      then (let (reply, s') = w.smembers key s in (record_members snapshot key reply, s'))
      else if str_eq key_type "zset"
      then (let (reply, s') = w.zrange key s in (record_members snapshot key reply, s'))
      else (snapshot, s)

  -- takeSnapshot, for one key of a page
  unfoldable pub snapshot_key : RedisSnapshot → String → State → RedisSnapshot × State
  unfolding is_index_key is_key_being_tracked snapshot_members
  snapshot_key snapshot key s =
      if is_index_key key || is_key_being_tracked key s
      then (snapshot, s)
      else let (reply, s') = w.key_type key s in
        snapshot_members (record snapshot { keys = insert key tt snapshot.keys }) key reply s'

  unfoldable pub snapshot_page : RedisSnapshot → List String → State → RedisSnapshot × State
  unfolding snapshot_key
  snapshot_page snapshot [] s = (snapshot, s)
  snapshot_page snapshot (key ∷ keys) s =
      let (snapshot', s') = snapshot_key snapshot key s in snapshot_page snapshot' keys s'

  -- takeSnapshot: pages until the cursor is 0. Redis ends a scan after finitely many pages, which
  -- the fuel bounds; an outer `none` is a scan that did not end.
  unfoldable pub take_snapshot_from :
      ℕ → RedisSnapshot → ℕ → State → Option (Reply RedisSnapshot × State)
  unfolding snapshot_page
  take_snapshot_from zero snapshot cursor s = none
  take_snapshot_from (suc fuel) snapshot cursor s =
      let (reply, s') = w.scan cursor s in
      elim reply [
        | err e ↦ some (err e, s')
        | ok (keys, next) ↦
            let (snapshot', s'') = snapshot_page snapshot keys s' in
            let more = take_snapshot_from fuel snapshot' next s'' in
            if next == 0 then some (ok snapshot', s'') else more
      ]

  -- cleanup, its first loop: the keys to delete
  unfoldable pub find_stalled_keys :
      GoMap (Unit {0}) → GoMap (Unit {0}) → State → List String × State
  unfolding is_key_being_tracked is_trace_data_key
  find_stalled_keys [] new_keys s = ([], s)
  find_stalled_keys ((key, _) ∷ old_keys) new_keys s =
      if has_key key new_keys && not (is_key_being_tracked key s)
      then (let (is_trace, s') = is_trace_data_key key s in
          let (stalled, s'') = find_stalled_keys old_keys new_keys s' in
          (if is_trace then key ∷ stalled else stalled, s''))
      else find_stalled_keys old_keys new_keys s

  -- cleanup, its second loop; a failed command is logged and passed over
  unfoldable pub delete_keys : List String → State → State
  delete_keys [] s = s
  delete_keys (key ∷ keys) s = delete_keys keys (w.del key s).1

  -- cleanup, the members of one set that are stalled
  unfoldable pub find_stalled_members : String → GoMap Bool → GoMap Bool → State → List String
  unfolding is_member extract_trace_keys_from_member is_key_being_tracked
  find_stalled_members set_key [] new_members s = []
  find_stalled_members set_key ((member, _) ∷ old_members) new_members s =
      let stalled = find_stalled_members set_key old_members new_members s in
      let trace_key = extract_trace_keys_from_member set_key member in
      if is_member member new_members
        && not (str_eq trace_key "")
        && not (is_key_being_tracked trace_key s)
      then member ∷ stalled
      else stalled

  -- cleanup, its third loop: set -> stalled members, for the sets that have one
  unfoldable pub find_stalled_set_items :
      GoMap (GoMap Bool) → GoMap (GoMap Bool) → State → GoMap (List String)
  unfolding find_stalled_members
  find_stalled_set_items [] new_contents s = []
  find_stalled_set_items ((set_key, old_members) ∷ old_contents) new_contents s =
      let rest = find_stalled_set_items old_contents new_contents s in
      elim (lookup set_key new_contents) [
        | none ↦ rest
        | some new_members ↦ elim (find_stalled_members set_key old_members new_members s) [
          | [] ↦ rest
          | m ∷ ms ↦ (set_key, m ∷ ms) ∷ rest
        ]
      ]

  -- cleanup, its last loop, for one set
  unfoldable pub remove_set_members : String → List String → Reply String → State → State
  remove_set_members set_key members (err _) s = s
  remove_set_members set_key members (ok key_type) s =
      if str_eq key_type "set"
      then (w.srem set_key members s).1
      else if str_eq key_type "zset"
      then (w.zrem set_key members s).1
      else s

  unfoldable pub remove_stalled_set_items : GoMap (List String) → State → State
  unfolding remove_set_members
  remove_stalled_set_items [] s = s
  remove_stalled_set_items ((set_key, members) ∷ items) s =
      let (reply, s') = w.key_type set_key s in
      remove_stalled_set_items items (remove_set_members set_key members reply s')

  -- cleanup
  unfoldable pub cleanup : RedisSnapshot → RedisSnapshot → State → State
  unfolding find_stalled_keys delete_keys find_stalled_set_items remove_stalled_set_items
  cleanup old_snapshot new_snapshot s =
      let (stalled_keys, s') = find_stalled_keys old_snapshot.keys new_snapshot.keys s in
      let s'' = delete_keys stalled_keys s' in
      remove_stalled_set_items
        (find_stalled_set_items old_snapshot.set_contents new_snapshot.set_contents s'') s''
