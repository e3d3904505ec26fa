-- ===== src/Ttl/Cleanup/Members.antt =====
-- Which members of sets cleanup removes.
use ton_indexer.Prelude.{
  ◌≡◌, ◌≢◌, Option, none, some, List, String, Bool, true, ◌&&◌, not, [], ◌∷◌, str_eq,
}
use ton_indexer.Prelude.Text.{split-concat, split-lacks, split-eq-cons, concat, lacks, Divides}
use Prim.Native.Char.{Char, code}
use Prim.Native.String.{String}
use ton_indexer.Prelude.GoMap.{GoMap, lookup}
use ton_indexer.Ttl.Heap.{Time}
use ton_indexer.Ttl.World.{World}
use ton_indexer.Ttl.Cleanup.{
  is_member, is_key_being_tracked, extract_trace_keys_from_member, find_stalled_members,
}

-- The trace key of a member is what stands before its first ':'; a member without ':' has none.
pub extract-concat :
    (set_key trace_id rest : String) (c : Char)
    → lacks b':' trace_id ≡ true
    → code c ≡ b':'
    → extract_trace_keys_from_member set_key (concat trace_id (String.◌∷◌ c rest)) ≡ trace_id
unfolding extract_trace_keys_from_member
extract-concat set_key trace_id rest c h e =
    let (x, (l, p)) = split-eq-cons b':' rest in
    rw (split-concat b':' c trace_id rest h e, p, extract_trace_keys_from_member)

pub extract-lacks :
    (set_key member : String)
    → lacks b':' member ≡ true
    → extract_trace_keys_from_member set_key member ≡ ""
unfolding extract_trace_keys_from_member
extract-lacks set_key member h = rw (split-lacks b':' member h, extract_trace_keys_from_member)

-- Parts of a member: its trace key is not empty, and ends at the first ':'.
pub record HasTraceKey (member trace_key : String) : Type 0 where
  pub rest : String
  pub parts : Divides b':' member trace_key rest
  pub not_empty : trace_key ≢ ""

-- The member is in both sets and has a trace key that is not tracked.
pub record IsStalledMember (latest : GoMap Time) (old_members new_members : GoMap Bool)
    (member : String) : Type 0 where
  pub in_old : lookup member old_members ≢ none
  pub in_new : lookup member new_members ≡ some true
  pub trace_key : String
  pub parts : HasTraceKey member trace_key
  pub untracked : lookup trace_key latest ≡ none

-- The set is in both snapshots, and the member is stalled in it.
pub record IsStalledItem (latest : GoMap Time) (old_contents new_contents : GoMap (GoMap Bool))
    (set_key member : String) : Type 0 where
  pub old_members : GoMap Bool
  pub new_members : GoMap Bool
  pub old_set : lookup set_key old_contents ≡ some old_members
  pub new_set : lookup set_key new_contents ≡ some new_members
  pub stalled : IsStalledMember latest old_members new_members member

abbrev pub members_in : Option (List String) → List String
members_in none = []
members_in (some members) = members

-- The loop adds a set with its members, if it has any.
abbrev put_members : String → List String → GoMap (List String) → GoMap (List String)
put_members k [] rest = rest
put_members k (m ∷ ms) rest = (k, m ∷ ms) ∷ rest

module _ (w : World) (latest_at : w.State → GoMap Time) where
  -- The member is valid in the newer snapshot, and has a trace key, which is not tracked.
  abbrev is_removable : String → GoMap Bool → w.State → String → Bool
  is_removable set_key new_members s x =
      is_member x new_members
      && not (str_eq (extract_trace_keys_from_member set_key x) "")
      && not (is_key_being_tracked w latest_at (extract_trace_keys_from_member set_key x) s)

  -- What the loop over the sets chooses for a set.
  chosen : String → w.State → Option (GoMap Bool) → Option (GoMap Bool) → List String
  chosen set_key s (some old_members) (some new_members) =
      find_stalled_members w latest_at set_key old_members new_members s
  chosen set_key s _ _ = []
