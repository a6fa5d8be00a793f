-- ===== src/Pipeline/Dedup.antt =====
-- The deduplication of events (src/pipeline/dedup.service.ts).
use ais_tracking_system.Prelude.{
  ℕ, String, ◌<>◌, Bool, true, false, Option, none, some, ite, str_discrete,
}
use ais_tracking_system.Prelude.Task.{Task, ◌>>=◌, resolve}
use ais_tracking_system.Pipeline.{Redis}

-- `reply === 'OK'`
unfoldable pub is_ok : Option String → Bool
is_ok none = false
is_ok (some reply) = ite (str_discrete reply "OK") true false

abbrev pub dedup_key : String → String → String
dedup_key mmsi occurred_at = "dedup:" <> mmsi <> ":" <> occurred_at

unfoldable pub should_accept : {W : Type 0} → Redis W → ℕ → String → String → Task W Bool
unfolding is_ok
should_accept redis ttl_seconds mmsi occurred_at = do
  reply ← redis.set_nx_ex (dedup_key mmsi occurred_at) "1" ttl_seconds
  resolve (is_ok reply)
