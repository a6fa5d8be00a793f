-- ===== src/Bus/Publish.antt =====
-- The publication of an event (src/shared/bus/redis-streams.event-bus.ts, publish).
pub mod Log
use ais_tracking_system.Prelude.{ℕ, String, ◌<>◌, Option, none, some, ite, str_discrete}
use ais_tracking_system.Contracts.Json.{Json}
use ais_tracking_system.Bus.{
  Thrown, error, Outcome, returned, threw, Async, await, ◌>>=◌, resolve, StreamRedis,
}
use ais_tracking_system.Bus.FailureHandler.{Texts, BusConfig}

abbrev pub no_id : String → Thrown
no_id stream = error "Error" ("XADD to " <> stream <> " returned no id") none

-- `if (!id) throw …`
unfoldable pub id_or_throw : {W : Type 0} → String → Option String → Async W String
id_or_throw stream none w = (threw (no_id stream), w)
id_or_throw stream (some id) w = (ite (str_discrete id "") (threw (no_id stream)) (returned id), w)

unfoldable pub publish :
    {W : Type 0} → StreamRedis W → Texts → BusConfig → String → Json → Async W String
unfolding id_or_throw
publish redis texts config stream payload =
    redis.xadd stream config.stream_maxlen (texts.stringify payload) >>= id_or_throw stream
