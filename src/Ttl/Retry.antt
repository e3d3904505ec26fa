-- ===== src/Ttl/Retry.antt =====
-- deleteKeyWithRetry of ton-trace-ttl-tracker/main.go.
pub mod Laws
use ton_indexer.Prelude.{ℕ, zero, suc, ◌+◌, ◌*◌, String, ltb, leb, if◌then◌else◌, ok, err}
use ton_indexer.Ttl.World.{World, RedisError, nil_reply, failure, Duration}

-- minDuration
unfoldable pub min_duration : Duration → Duration → Duration
min_duration a b = if ltb a b then a else b

pub record Retries : Type 0 where
  pub max_retries : ℕ
  pub base_delay : Duration
  pub max_delay : Duration

-- How a deletion ends: the key is gone (a nil error), the retries are used up, the context is
-- cancelled; or the model ran out of fuel.
pub data Outcome : Type 0 where
  deleted : Outcome
  exceeded : RedisError → Outcome
  context_error : Outcome
  out_of_fuel : Outcome

module _ (w : World) (r : Retries) where
  unfoldable pub delete_loop : ℕ → String → ℕ → Duration → w.State → Outcome × w.State
  unfolding min_duration
  delete_loop zero key attempt delay s = (out_of_fuel, s)
  delete_loop (suc fuel) key attempt delay s =
      let (reply, s') = w.del key s in
      elim reply [
        | ok _ ↦ (deleted, s')
        | err nil_reply ↦ (deleted, s')
        | err (failure e) ↦
            if leb r.max_retries (attempt + 1)
            then (exceeded (failure e), s')
            else if w.cancelled s'
            then (context_error, s')
            else delete_loop fuel key (attempt + 1) (min_duration (delay * 2) r.max_delay)
                (w.sleep delay s')
      ]

  unfoldable pub delete_key_with_retry : String → w.State → Outcome × w.State
  unfolding delete_loop
  delete_key_with_retry key s = delete_loop (r.max_retries + 1) key 0 r.base_delay s
