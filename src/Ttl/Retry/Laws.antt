-- ===== src/Ttl/Retry/Laws.antt =====
-- How deleteKeyWithRetry ends, and how long it waits.
use native.Mathlib.Nat.{pow-suc}
use ton_indexer.Prelude.{
  ℕ, zero, suc, ◌+◌, ◌-◌, ◌*◌, ◌^◌, ◌≤◌, ◌<◌, ◌≡◌, ◌≢◌, ◌⊎◌, inl, inr, refl, ◌∙◌, arith, String,
  true, false, ltb, leb, ok, err, min, Bool-cases,
}
use ton_indexer.Ttl.World.{World, Reply, nil_reply, failure, Duration}
use ton_indexer.Ttl.Retry.{
  min_duration, Retries, deleted, exceeded, out_of_fuel, delete_loop, delete_key_with_retry,
}

-- The wait before round i + 1.
pub backoff : Retries → ℕ → Duration → Duration
backoff r zero delay = delay
backoff r (suc i) delay = backoff r i (min_duration (delay * 2) r.max_delay)

backoff_capped : (r : Retries) (i : ℕ) → backoff r i r.max_delay ≡ r.max_delay
unfolding backoff min_duration
backoff_capped r zero = refl
backoff_capped r (suc i) =
    let same : min_duration (r.max_delay * 2) r.max_delay ≡ r.max_delay = ground arith in
    rw same (backoff_capped r i)

pow_pos : (i : ℕ) → 1 ≤ 2 ^ i
pow_pos zero = omega arith
pow_pos (suc i) = rw (pow-suc 2 i) (omega (arith, pow_pos i))

doubled : (delay i : ℕ) → delay * 2 * 2 ^ i ≡ delay * 2 ^ suc i
doubled delay i = rw (pow-suc 2 i) (omega arith)

grown : (delay i : ℕ) → delay * 2 ≤ delay * 2 ^ suc i
grown delay i = let p = pow_pos i in rw (← doubled delay i) (grind arith)

-- The waits double from the first one, up to the longest wait allowed.
pub backoff_doubles :
    (r : Retries) (i : ℕ) (delay : Duration)
    → delay ≤ r.max_delay
    → backoff r i delay ≡ min (delay * 2 ^ i) r.max_delay
unfolding backoff min_duration
backoff_doubles r zero delay h = omega arith
backoff_doubles r (suc i) delay h = elim (Bool-cases (ltb (delay * 2) r.max_delay)) [
  | inl below ↦
      let ih = backoff_doubles r i (delay * 2) (ground arith) in rw (below) (rw doubled at ih)
  | inr above ↦ rw above (backoff_capped r i ∙ ground (arith, grown delay i))
]

Reply-cases :
    (x : Reply (Unit {0}))
    → (x ≡ ok tt) ⊎ ((x ≡ err nil_reply) ⊎ ((e : String) × (x ≡ err (failure e))))
Reply-cases (ok tt) = inl refl
Reply-cases (err nil_reply) = inr (inl refl)
Reply-cases (err (failure e)) = inr (inr (e, refl))

module _ (w : World) (r : Retries) (key : String) where
  -- The state after `n` rounds that failed and waited.
  unfoldable pub after_rounds : ℕ → Duration → w.State → w.State
  after_rounds zero delay s = s
  after_rounds (suc n) delay s =
      after_rounds n (min_duration (delay * 2) r.max_delay) (w.sleep delay (w.del key s).1)

  -- `n` rounds fail, and the context is not cancelled in between.
  abbrev pub AllFail : ℕ → Duration → w.State → Type 0
  AllFail zero delay s = Unit
  AllFail (suc n) delay s =
      ((e : String) × ((w.del key s).0 ≡ err (failure e)))
      × (w.cancelled (w.del key s).1 ≡ false)
      × AllFail n (min_duration (delay * 2) r.max_delay) (w.sleep delay (w.del key s).1)

  -- DEL succeeds, or the key does not exist.
  abbrev pub Succeeds : Reply (Unit {0}) → Type 0
  Succeeds reply = (reply ≡ ok tt) ⊎ (reply ≡ err nil_reply)

  loop_total :
      (fuel attempt : ℕ) (delay : Duration) (s : w.State)
      → r.max_retries < fuel + attempt
      → 0 < fuel
      → (delete_loop w r fuel key attempt delay s).0 ≢ out_of_fuel
  unfolding delete_loop
  loop_total zero attempt delay s h p = absurd (omega arith)
  loop_total (suc fuel) attempt delay s h p = elim (Reply-cases (w.del key s).0) [
    | inl e ↦ rw (e, delete_loop) (λ q. cc)
    | inr (inl e) ↦ rw (e, delete_loop) (λ q. cc)
    | inr (inr (x, e)) ↦
        rw (e, delete_loop)
          (elim (Bool-cases (leb r.max_retries (attempt + 1))) [
            | inl last ↦ rw last (λ q. cc)
            | inr more ↦ rw more (elim (Bool-cases (w.cancelled (w.del key s).1)) [
              | inl c ↦ rw c (λ q. cc)
              | inr c ↦ rw c (loop_total fuel (attempt + 1) _ _ (omega arith) (ground arith))
            ])
          ])
  ]

  loop_success :
      (n fuel attempt : ℕ) (delay : Duration) (s : w.State)
      → n < fuel
      → (0 < n → n + attempt < r.max_retries)
      → AllFail n delay s
      → Succeeds (w.del key (after_rounds n delay s)).0
      → delete_loop w r fuel key attempt delay s ≡ (deleted, (w.del key (after_rounds n delay s)).1)
  unfolding delete_loop after_rounds
  loop_success n zero attempt delay s f h a t = absurd (omega arith)
  loop_success zero (suc fuel) attempt delay s f h a (inl e) = rw (e, delete_loop)
  loop_success zero (suc fuel) attempt delay s f h a (inr e) = rw (e, delete_loop)
  loop_success (suc n) (suc fuel) attempt delay s f h ((e, fails), going, a) t =
      let more : leb r.max_retries (attempt + 1) ≡ false =
        let room = h (omega arith) in ground arith in
      rw (fails, delete_loop)
        (rw more (
          rw going (
            loop_success n fuel (attempt + 1) (min_duration (delay * 2) r.max_delay)
              (w.sleep delay (w.del key s).1) (omega arith)
              (λ p. let room = h (omega arith) in omega arith) a t)))

  loop_exceeded :
      (n fuel attempt : ℕ) (delay : Duration) (s : w.State) (e : String)
      → n < fuel
      → (0 < n → n + attempt + 1 ≡ r.max_retries)
      → r.max_retries ≤ n + attempt + 1
      → AllFail n delay s
      → (w.del key (after_rounds n delay s)).0 ≡ err (failure e)
      → delete_loop w r fuel key attempt delay s
        ≡ (exceeded (failure e), (w.del key (after_rounds n delay s)).1)
  unfolding delete_loop after_rounds
  loop_exceeded n zero attempt delay s e f h l a t = absurd (omega arith)
  loop_exceeded zero (suc fuel) attempt delay s e f h l a t =
      let last : leb r.max_retries (attempt + 1) ≡ true = ground arith in
      rw (t, delete_loop) (rw last refl)
  loop_exceeded (suc n) (suc fuel) attempt delay s e f h l ((x, fails), going, a) t =
      let room = h (omega arith) in
      let more : leb r.max_retries (attempt + 1) ≡ false = ground arith in
      rw (fails, delete_loop)
        (rw more (
          rw going (
            loop_exceeded n fuel (attempt + 1) (min_duration (delay * 2) r.max_delay)
              (w.sleep delay (w.del key s).1) e (omega arith) (λ p. omega arith) (omega arith) a
              t)))

  -- deleteKeyWithRetry ends: it never needs more rounds than the fuel allows.
  pub delete_key_with_retry_total :
      (s : w.State) → (delete_key_with_retry w r key s).0 ≢ out_of_fuel
  unfolding delete_key_with_retry
  delete_key_with_retry_total s =
      loop_total (r.max_retries + 1) 0 r.base_delay s (omega arith) (omega arith)

  -- If the first `n` DEL calls fail, `n` is below the limit of retries (or is 0), the context is
  -- not cancelled, and the next DEL succeeds or finds no key, then the key counts as deleted; the
  -- state is the one after these calls and the waits between them.
  pub delete_key_with_retry_success :
      (n : ℕ) (s : w.State)
      → (0 < n → n < r.max_retries)
      → AllFail n r.base_delay s
      → Succeeds (w.del key (after_rounds n r.base_delay s)).0
      → delete_key_with_retry w r key s ≡ (deleted, (w.del key (after_rounds n r.base_delay s)).1)
  unfolding delete_key_with_retry
  delete_key_with_retry_success n s h a t =
      loop_success n (r.max_retries + 1) 0 r.base_delay s (ground arith)
        (λ p. let room = h p in omega arith) a t

  -- If every DEL call fails and the context is not cancelled, the call gives up after exactly as
  -- many DEL calls as the limit of retries says, but at least one, with the last error.
  pub delete_key_with_retry_exceeded :
      (s : w.State) (e : String)
      → AllFail (r.max_retries - 1) r.base_delay s
      → (w.del key (after_rounds (r.max_retries - 1) r.base_delay s)).0 ≡ err (failure e)
      → delete_key_with_retry w r key s
        ≡ (exceeded (failure e), (w.del key (after_rounds (r.max_retries - 1) r.base_delay s)).1)
  unfolding delete_key_with_retry
  delete_key_with_retry_exceeded s e a t =
      loop_exceeded (r.max_retries - 1) (r.max_retries + 1) 0 r.base_delay s e (omega arith)
        (λ p. omega arith) (omega arith) a t
