-- ===== src/Index/Pending/Filters/Actions.antt =====
-- FilterTraceActions of ton-index-go/index/pending.go: which actions it leaves.
use ton_indexer.Prelude.{
  ◌≡◌, refl, sym, ap, ◌∙◌, String, Option, none, some, List, [], ◌∷◌, str_eq, eq_iff, Bool-cases,
  inl, inr, filter, ◌++◌,
}
use ton_indexer.Prelude.GoMap.{GoMap, lookup, insert, lookup-insert, IsUnique}
use ton_indexer.Index.Emulated.Rows.{ActionRow}
use ton_indexer.Index.Pending.{EmulatedTracesContext, entries}
use ton_indexer.Index.Pending.Filters.{actions_with_id, filtered_actions, filter_trace_actions}

abbrev pub rows_of : Option (List ActionRow) → List ActionRow
rows_of none = []
rows_of (some rows) = rows

-- For each id in turn the actions that have it, in their order.
unfoldable pub with_ids : List String → List ActionRow → List ActionRow
with_ids [] rows = []
with_ids (action_id ∷ action_ids) rows =
    filter (λ (a : ActionRow). str_eq a.action_id action_id) rows ++ with_ids action_ids rows

actions_with_id-filter :
    (action_id : String) (rows : List ActionRow)
    → actions_with_id action_id rows ≡ filter (λ (a : ActionRow). str_eq a.action_id action_id) rows
unfolding actions_with_id
actions_with_id-filter action_id [] = refl
actions_with_id-filter action_id (a ∷ rows) = rw (actions_with_id-filter action_id rows) refl

filtered_actions-with_ids :
    (action_ids : List String) (rows : List ActionRow)
    → filtered_actions action_ids rows ≡ with_ids action_ids rows
unfolding filtered_actions with_ids
filtered_actions-with_ids [] rows = refl
filtered_actions-with_ids (action_id ∷ action_ids) rows =
    rw (actions_with_id-filter action_id rows, filtered_actions-with_ids action_ids rows) refl

-- The actions of a trace that has the given list of ids in the map, or none.
unfoldable pub picked : Option (List String) → Option (List ActionRow) → Option (List ActionRow)
picked none before = before
picked (some action_ids) before = some (with_ids action_ids (rows_of before))

entries-rows_of : (k : String) (m : GoMap (List ActionRow)) → entries k m ≡ rows_of (lookup k m)
entries-rows_of k m =
    elim (lookup k m) as (λ o. (elim o [ none ↦ [] | some xs ↦ xs ]) ≡ rows_of o) [
      | none ↦ refl
      | some rows ↦ refl
    ]

-- When the map has one entry to a trace id, FilterTraceActions leaves of the actions of each of its
-- traces those with the ids given for it, in the order of the ids, and leaves the actions of every
-- other trace as they are.
pub filter_trace_actions_correct :
    (trace_action_map : GoMap (List String)) (c : EmulatedTracesContext) (t : String)
    → IsUnique trace_action_map
    → lookup t (filter_trace_actions trace_action_map c).emulated_actions
      ≡ picked (lookup t trace_action_map) (lookup t c.emulated_actions)
unfolding filter_trace_actions picked lookup
filter_trace_actions_correct [] c t u = refl
filter_trace_actions_correct ((k, ids) ∷ trace_action_map) c t u =
    let rows = filtered_actions ids (entries k c.emulated_actions) in
    filter_trace_actions_correct trace_action_map
      (record c { emulated_actions = insert k rows c.emulated_actions }) t u.1
    ∙ ap (picked (lookup t trace_action_map)) (lookup-insert k t rows c.emulated_actions)
    ∙ elim (Bool-cases (str_eq k t)) [
      | inl e ↦
          let same = (eq_iff k t).0 e in
          rw e (
            ap (λ o. picked o (some rows)) (ap (λ j. lookup j trace_action_map) (sym same) ∙ u.0)
            ∙ ap some (filtered_actions-with_ids ids (entries k c.emulated_actions))
            ∙ ap (λ xs. some (with_ids ids xs))
                (entries-rows_of k c.emulated_actions
                  ∙ ap (λ j. rows_of (lookup j c.emulated_actions)) same))
      | inr e ↦ rw e refl
    ]
