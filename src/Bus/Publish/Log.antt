-- ===== src/Bus/Publish/Log.antt =====
-- What a publication writes.
use ais_tracking_system.Prelude.{◌≡◌, refl, String, Option, none, some, List, ◌∷◌}
use ais_tracking_system.Contracts.Json.{Json}
use ais_tracking_system.Bus.{Outcome, returned, threw, await, StreamRedis}
use ais_tracking_system.Bus.FailureHandler.{Texts, BusConfig}
use ais_tracking_system.Bus.FailureHandler.Reports.{Effect, written, IsLogged}
use ais_tracking_system.Bus.Publish.{id_or_throw, publish}

module _ {W : Type 0} (redis : StreamRedis W) (texts : Texts) (config : BusConfig)
    (log : W → List Effect) (laws : IsLogged redis log) where
  -- If publishing an event returns an id, then exactly the event's text has been added to the
  -- stream, and nothing else was acknowledged or written.
  pub publish_writes :
      (stream id : String) (payload : Json) (w : W)
      → (publish redis texts config stream payload w).0 ≡ returned id
      → log (publish redis texts config stream payload w).1
        ≡ written stream (texts.stringify payload) ∷ log w
  unfolding publish id_or_throw
  publish_writes stream id payload w e =
      added (redis.xadd stream config.stream_maxlen (texts.stringify payload) w)
        (laws.xadd_returned stream config.stream_maxlen (texts.stringify payload) w) e
    where
      added :
          (r : Outcome (Option String) × W)
          → ((x : Option String)
              → r.0 ≡ returned x
              → log r.1 ≡ written stream (texts.stringify payload) ∷ log w)
          → (await r (id_or_throw stream)).0 ≡ returned id
          → log (await r (id_or_throw stream)).1 ≡ written stream (texts.stringify payload) ∷ log w
      added (threw d, v) h e = cc
      added (returned none, v) h e = h none refl
      added (returned (some x), v) h e = h (some x) refl
