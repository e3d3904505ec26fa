-- ===== src/Ttl/Expiry/Expired.antt =====
-- GetExpired against the map of latest expiries: what is reported, what stays.
use mathlib.Core.List.Perm
use mathlib.Core.List.{not-mem-nil, mem_of_ne_of_mem}
use ton_indexer.Prelude.{
  ◌≡◌, refl, sym, ap, ◌∙◌, ◌≢◌, some, none, true, false, String, List, [], ◌∷◌, ◌++◌, Mem, arith,
  if◌then◌else◌, Yields, yields, Yields-map, Yields-bind, Yields-if, Bool-cases, eq_iff, str_eq,
  inl, inr, ◌≤◌, ◌<◌, ◌+◌, ℕ, zero, suc, Option-cases, ltb, count, count-append, count-singleton,
  length, length-perm, get_elem?,
}
use ton_indexer.Prelude.GoMap.{GoMap, lookup, delete, lookup-delete}
use ton_indexer.Ttl.Heap.{Time, KeyExpiry, ExpiryMinHeap}
use ton_indexer.Ttl.Heap.Order.{at}
use ton_indexer.Ttl.Heap.Laws.{Popped, heap_pop_correct, first_least}
use ton_indexer.Ttl.Expiry.{ExpiryTracker, settle, get_expired_loop, get_expired}
use ton_indexer.Ttl.Expiry.Deadlines.{due}
use ton_indexer.Ttl.Expiry.Invariant.{entry, Covers, IsValid}

-- From `et` with the keys `out` to `r`: each key is reported once more if it is due in `et`, and
-- not otherwise; a due key is no longer tracked, and every other key is tracked as before.
pub record Reports (now : Time) (et : ExpiryTracker) (out : List String)
    (r : ExpiryTracker × List String) : Type 0 where
  pub valid : IsValid r.0
  pub reported :
      (k : String)
      → count k r.1 ≡ count k out + (if due now (lookup k et.latest_expiries) then 1 else 0)
  pub left :
      (k : String)
      → lookup k r.0.latest_expiries
        ≡ (if due now (lookup k et.latest_expiries) then none else lookup k et.latest_expiries)

-- Where the loop stops, no tracked key is due.
stopped-Reports :
    (now : Time) (et : ExpiryTracker) (out : List String)
    → IsValid et
    → ((x : KeyExpiry) → Mem x et.heap → now < x.expiry_time)
    → Reports now et out (et, out)
stopped-Reports now et out v later =
    let idle : (k : String) → due now (lookup k et.latest_expiries) ≡ false = λ k.
      elim (Option-cases (lookup k et.latest_expiries)) [
        | inl e ↦ rw e
        | inr (t, e) ↦ rw e (let p = later (entry k t) (v.covers k t e) in ground arith)
      ] in
    record { valid = v; reported = λ k. ground (arith, idle k); left = λ k. ground (arith, idle k) }

module _ (now : Time) (et : ExpiryTracker) (out : List String) (v : IsValid et) (e : KeyExpiry)
    (h : ExpiryMinHeap) (p : Popped et.heap (e, h)) (soon : e.expiry_time ≤ now) where
  -- What the map says of a key other than the popped entry is still covered.
  still_covered :
      (latest : GoMap Time)
      → ((k : String) (t : Time)
          → lookup k latest ≡ some t
          → (lookup k et.latest_expiries ≡ some t) × (entry k t ≢ e))
      → Covers h latest
  still_covered latest f = λ k t q.
      let (old, other) = f k t q in
      mem_of_ne_of_mem other ((Perm.mem_iff p.same).1 (v.covers k t old))

  -- No tracked key has the popped entry, if the popped key has none or a later expiry.
  stale-Covers :
      ((t : Time) → lookup e.key et.latest_expiries ≡ some t → t ≢ e.expiry_time)
      → Covers h et.latest_expiries
  stale-Covers f = still_covered et.latest_expiries λ k t q. (
    q,
    λ same.
        let key : k ≡ e.key = ap (λ (x : KeyExpiry). x.key) same in
        f t (rw key at q) (ap (λ (x : KeyExpiry). x.expiry_time) same),
  )

  delete-Covers : Covers h (delete e.key et.latest_expiries)
  delete-Covers = still_covered (delete e.key et.latest_expiries) λ k t q.
      elim (Bool-cases (str_eq e.key k)) [
        | inl same ↦ absurd (ground (arith, lookup-delete e.key k et.latest_expiries))
        | inr other ↦ (
          ground (arith, lookup-delete e.key k et.latest_expiries),
          λ same. ground (arith, eq_iff e.key k, ap (λ (x : KeyExpiry). x.key) same),
        )
      ]

  abbrev Settled : ExpiryTracker × List String → Type 0
  Settled s =
      (s.0.heap ≡ h)
      × IsValid s.0
      × ((r : ExpiryTracker × List String) → Reports now s.0 s.1 r → Reports now et out r)

  skipped :
      ((t : Time) → lookup e.key et.latest_expiries ≡ some t → t ≢ e.expiry_time)
      → Settled (record et { heap = h }, out)
  skipped f = (
    refl,
    record { ordered = p.ordered; covers = stale-Covers f },
    λ r s. record { valid = s.valid; reported = s.reported; left = s.left },
  )

  taken :
      (t : Time)
      → lookup e.key et.latest_expiries ≡ some t
      → t ≤ e.expiry_time
      → Settled (
        record { heap = h; latest_expiries = delete e.key et.latest_expiries },
        out ++ e.key ∷ [],
      )
  taken t q le = (
    refl,
    record { ordered = p.ordered; covers = delete-Covers },
    λ r s. record {
      valid = s.valid;
      reported = λ k. ground (
        arith,
        s.reported k,
        lookup-delete e.key k et.latest_expiries,
        count-append k out (e.key ∷ []),
        count-singleton k e.key,
        eq_iff e.key k,
      );
      left =
          λ k. ground (arith, s.left k, lookup-delete e.key k et.latest_expiries, eq_iff e.key k);
    },
  )

  settle-Settled : Settled (settle e (record et { heap = h }) out)
  unfolding settle
  settle-Settled = elim (Option-cases (lookup e.key et.latest_expiries)) [
    | inl q ↦ rw (q, settle) (skipped (λ t r. cc))
    | inr (t, q) ↦
        rw (q, settle)
          (elim (Bool-cases (ltb e.expiry_time t)) [
            | inl later ↦ rw later (skipped (λ u r. ground arith))
            | inr same ↦ rw same (taken t q (ground arith))
          ])
  ]

top_of :
    (et : ExpiryTracker) (t : KeyExpiry)
    → get_elem? et.heap 0 ≡ some t
    → (0 < length et.heap) × (t ≡ at et.heap 0)
top_of et t q = go et.heap q
  where
    go : (h : ExpiryMinHeap) → get_elem? h 0 ≡ some t → (0 < length h) × (t ≡ at h 0)
    go [] r = cc
    go (x ∷ h) r = (omega arith, cc)

empty_heap : (h : ExpiryMinHeap) → get_elem? h 0 ≡ none → h ≡ []
empty_heap [] r = refl
empty_heap (x ∷ h) r = cc

module _ (now : Time) where
  stop_empty :
      (et : ExpiryTracker) (out : List String)
      → IsValid et
      → get_elem? et.heap 0 ≡ none
      → Reports now et out (et, out)
  stop_empty et out v e =
      stopped-Reports now et out v λ x m. absurd (not-mem-nil (rw (empty_heap et.heap e) at m))

  stop_later :
      (et : ExpiryTracker) (out : List String) (t : KeyExpiry)
      → IsValid et
      → get_elem? et.heap 0 ≡ some t
      → ltb now t.expiry_time ≡ true
      → Reports now et out (et, out)
  stop_later et out t v e late =
      let (_, first) = top_of et t e in
      stopped-Reports now et out v λ x m.
        let least = first_least et.heap v.ordered x m in
        let same = ap (λ (y : KeyExpiry). y.expiry_time) first in ground arith

  get_expired_loop_correct :
      (fuel : ℕ) (et : ExpiryTracker) (out : List String)
      → length et.heap ≤ fuel
      → IsValid et
      → Yields (Reports now et out) (get_expired_loop fuel et now out)
  unfolding get_expired_loop
  get_expired_loop_correct zero et out f v = elim (Option-cases (get_elem? et.heap 0)) [
    | inl e ↦ rw (e, get_expired_loop) (yields (stop_empty et out v e))
    | inr (t, e) ↦ absurd (let (pos, _) = top_of et t e in omega arith)
  ]
  get_expired_loop_correct (suc fuel) et out f v = elim (Option-cases (get_elem? et.heap 0)) [
    | inl e ↦ rw (e, get_expired_loop) (yields (stop_empty et out v e))
    | inr (t, e) ↦
        rw (e, get_expired_loop)
          (Yields-if (ltb now t.expiry_time) (λ late. yields (stop_later et out t v e late))
            (λ soon.
              let (pos, first) = top_of et t e in
              Yields-bind (heap_pop_correct et.heap v.ordered pos) λ (popped, h) p.
                let reached : popped.expiry_time ≤ now =
                  ground (arith, ap (λ (y : KeyExpiry). y.expiry_time) (first ∙ sym p.first)) in
                let (left, valid, back) = settle-Settled now et out v popped h p reached in
                let shorter : length (settle popped (record et { heap = h }) out).0.heap ≤ fuel =
                  rw left (omega (arith, length-perm p.same)) in
                Yields-map (get_expired_loop_correct fuel _ _ shorter valid) back))
  ]

-- GetExpired on a valid tracker ends without a panic: it reports each key whose latest expiry is
-- not after `now` exactly once, and no other key; it stops tracking the keys that it reports and
-- leaves every other key as it was; and the tracker stays valid.
pub get_expired_correct :
    (now : Time) (et : ExpiryTracker) → IsValid et → Yields (Reports now et []) (get_expired et now)
unfolding get_expired
get_expired_correct now et v = get_expired_loop_correct now (length et.heap) et [] (omega arith) v
