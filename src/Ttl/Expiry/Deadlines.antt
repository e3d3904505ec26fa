-- ===== src/Ttl/Expiry/Deadlines.antt =====
-- What ExpiryTracker of ton-trace-ttl-tracker/main.go promises: a deadline for each tracked key,
-- with no heap and no order.
use ton_indexer.Prelude.{
  ℕ, ◌≡◌, String, Bool, true, false, not, ◌&&◌, ◌||◌, Option, none, some, List, [], ◌∷◌, arith,
  if◌then◌else◌, str_eq, leb, ◌+◌, Bool-cases, inl, inr,
}
use ton_indexer.Ttl.Heap.{Time}

abbrev pub Deadlines : Type 0
Deadlines = String → Option Time

-- A call of Add, or of GetExpired at a time.
pub data Call : Type 0 where
  track : String → Time → Call
  report : Time → Call

-- A tracked key is due when its latest expiry is not after `now`.
abbrev pub due : Time → Option Time → Bool
due now none = false
due now (some t) = leb t now

-- How often each key is reported.
abbrev pub Report : Type 0
Report = String → ℕ

abbrev pub reported_at : Time → Deadlines → Report
reported_at now d = λ k. if due now (d k) then 1 else 0

abbrev pub left_at : Time → Deadlines → Deadlines
left_at now d = λ k. if due now (d k) then none else d k

abbrev pub tracked_until : String → Time → Deadlines → Deadlines
tracked_until key t d = λ k. if str_eq key k then some t else d k

-- The deadlines after the calls, and the report of each GetExpired.
abbrev pub follow : List Call → Deadlines → Deadlines × List Report
follow [] d = (d, [])
follow (track key t ∷ calls) d = follow calls (tracked_until key t d)
follow (report now ∷ calls) d =
    let (last, reports) = follow calls (left_at now d) in (last, reported_at now d ∷ reports)

-- How often a key is reported in all.
abbrev pub total : String → List Report → ℕ
total k [] = 0
total k (r ∷ reports) = r k + total k reports

-- No call tracks the key.
abbrev pub is_untouched : String → List Call → Bool
is_untouched k [] = true
is_untouched k (track key t ∷ calls) = not (str_eq key k) && is_untouched k calls
is_untouched k (report now ∷ calls) = is_untouched k calls

-- Some GetExpired comes at the time or after it.
abbrev pub is_reached : Time → List Call → Bool
is_reached t [] = false
is_reached t (track key u ∷ calls) = is_reached t calls
is_reached t (report now ∷ calls) = leb t now || is_reached t calls

module _ (k : String) where
  abbrev Ends : ℕ → Deadlines × List Report → Type 0
  Ends n r = (total k r.1 ≡ n) × (r.0 k ≡ none)

  follow-untracked :
      (calls : List Call) (d : Deadlines)
      → is_untouched k calls ≡ true
      → d k ≡ none
      → Ends 0 (follow calls d)
  follow-untracked [] d u e = ground arith
  follow-untracked (track key t ∷ calls) d u e =
      follow-untracked calls (tracked_until key t d) (ground arith) (ground arith)
  follow-untracked (report now ∷ calls) d u e =
      let rest = follow-untracked calls (left_at now d) u (ground arith) in ground (arith, rest)

  pub follow-tracked :
      (t : Time) (calls : List Call) (d : Deadlines)
      → is_untouched k calls ≡ true
      → is_reached t calls ≡ true
      → d k ≡ some t
      → Ends 1 (follow calls d)
  follow-tracked t [] d u r e = ground arith
  follow-tracked t (track key s ∷ calls) d u r e =
      follow-tracked t calls (tracked_until key s d) (ground arith) r (ground arith)
  follow-tracked t (report now ∷ calls) d u r e = elim (Bool-cases (leb t now)) [
    | inl due_now ↦
        let rest = follow-untracked calls (left_at now d) u (ground arith) in ground (arith, rest)
    | inr later ↦
        let rest = follow-tracked t calls (left_at now d) u (ground arith) (ground arith) in
        ground (arith, rest)
  ]
