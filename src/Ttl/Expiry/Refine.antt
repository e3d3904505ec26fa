-- ===== src/Ttl/Expiry/Refine.antt =====
-- ExpiryTracker of ton-trace-ttl-tracker/main.go against the deadlines that it promises.
use mathlib.Core.Path.{ap₂}
use ton_indexer.Prelude.{
  ◌≡◌, ◌∙◌, refl, ap, sym, subst, arith, eq_iff, fun_ext, true, none, some, Option, String, List,
  [], ◌∷◌, ◌>>=◌, map, count, Yields, yields, Yields-bind, Yields-map,
}
use ton_indexer.Prelude.GoMap.{lookup}
use ton_indexer.Ttl.Heap.{Time}
use ton_indexer.Ttl.Expiry.{ExpiryTracker, add, get_expired}
use ton_indexer.Ttl.Expiry.Deadlines.{
  Deadlines, Call, track, report, Report, reported_at, left_at, tracked_until, follow, total,
  is_untouched, is_reached, follow-tracked,
}
use ton_indexer.Ttl.Expiry.Invariant.{IsValid, add_correct}
use ton_indexer.Ttl.Expiry.Expired.{get_expired_correct}

-- The calls on a tracker, with what each GetExpired returns.
unfoldable pub serve : List Call → ExpiryTracker → Option (ExpiryTracker × List (List String))
serve [] et = some (et, [])
serve (track key t ∷ calls) et = add et key t >>= serve calls
serve (report now ∷ calls) et = do
  (et', expired) ← get_expired et now
  (last, reports) ← serve calls et'
  some (last, expired ∷ reports)

abbrev pub deadlines : ExpiryTracker → Deadlines
deadlines et = λ k. lookup k et.latest_expiries

-- The list of a report without its order.
abbrev pub counts : List String → Report
counts expired = λ k. count k expired

abbrev pub seen : ExpiryTracker × List (List String) → Deadlines × List Report
seen (et, reports) = (deadlines et, map counts reports)

-- No sequence of calls of Add and GetExpired on a valid tracker panics, and none tells it from its
-- deadlines: each GetExpired reports each key as often as its deadline says, and at the end the
-- tracked keys are those of the deadlines.
pub serve-follow :
    (calls : List Call) (et : ExpiryTracker)
    → IsValid et
    → Yields (λ r. seen r ≡ follow calls (deadlines et)) (serve calls et)
unfolding serve count
serve-follow [] et v = yields refl
serve-follow (track key t ∷ calls) et v = Yields-bind (add_correct et key t v) λ et' a.
    Yields-map (serve-follow calls et' a.valid) λ r e. e ∙ ap (follow calls) (fun_ext a.latest)
serve-follow (report now ∷ calls) et v =
    Yields-bind (get_expired_correct now et v) λ (et', expired) p.
      Yields-bind (serve-follow calls et' p.valid) λ r e.
        let counted : counts expired ≡ reported_at now (deadlines et) =
          fun_ext λ k. omega (arith, p.reported k) in
        let rest : seen r ≡ follow calls (left_at now (deadlines et)) =
          e ∙ ap (follow calls) (fun_ext p.left) in
        yields (ap₂ (λ (f : Report) (s : Deadlines × List Report). (s.0, f ∷ s.1)) counted rest)

-- A key that is tracked is reported exactly once by the calls that follow, and is not tracked at
-- their end, when none of them tracks it again and some GetExpired comes at its expiry or after.
pub tracked_key-reported_once :
    (k : String) (t : Time) (calls : List Call) (et : ExpiryTracker)
    → IsValid et
    → is_untouched k calls ≡ true
    → is_reached t calls ≡ true
    → Yields
        (λ r. (total k (map counts r.1) ≡ 1) × (deadlines r.0 k ≡ none))
        (serve (track k t ∷ calls) et)
tracked_key-reported_once k t calls et v untouched reached =
    Yields-map (serve-follow (track k t ∷ calls) et v) λ r e.
      subst (λ s. (total k s.1 ≡ 1) × (s.0 k ≡ none)) (sym e)
        (follow-tracked k t calls (tracked_until k t (deadlines et)) untouched reached
          (ground (arith, eq_iff k k)))
