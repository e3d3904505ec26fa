-- ===== src/Ttl/World.antt =====
-- What ton-trace-ttl-tracker/main.go takes from outside: the Redis client, the clock and the
-- context. A call returns its reply and the state of the world after it.
use ton_indexer.Prelude.{ℕ, String, Bool, List, Result}
use ton_indexer.Prelude.GoMap.{GoMap}
use ton_indexer.Ttl.Heap.{Time}

-- An error of the client; `nil_reply` is the one that errors.Is(err, redis.Nil) recognises.
pub data RedisError : Type 0 where
  nil_reply : RedisError
  failure : String → RedisError

abbrev pub Reply : Type 0 → Type 0
Reply A = Result RedisError A

abbrev pub Duration : Type 0
Duration = ℕ

pub record World : Type 1 where
  pub State : Type 0
  -- time.Now(), time.Sleep(d), ctx.Err() != nil
  pub now : State → Time × State
  pub sleep : Duration → State → State
  pub cancelled : State → Bool
  -- the commands of the client
  pub hgetall : String → State → Reply (GoMap String) × State
  pub hexists : String → String → State → Reply Bool × State
  pub del : String → State → Reply (Unit {0}) × State
  -- ZRange(key, 0, -1)
  pub zrange : String → State → Reply (List String) × State
  pub zrem : String → List String → State → Reply (Unit {0}) × State
  pub smembers : String → State → Reply (List String) × State
  pub srem : String → List String → State → Reply (Unit {0}) × State
  pub key_type : String → State → Reply String × State
  -- Scan(cursor, "*", 1000): keys, and the next cursor
  pub scan : ℕ → State → Reply (List String × ℕ) × State
