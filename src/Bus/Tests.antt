-- ===== src/Bus/Tests.antt =====
-- Runs of the bus at concrete inputs.
use ais_tracking_system.Prelude.{
  ◌≡◌, ℕ, suc, refl, inl, inr, String, some, none, List, [], ◌∷◌, get_or_else, str_discrete, if_pos,
}
use ais_tracking_system.Prelude.StringMap
use ais_tracking_system.Prelude.StringMap.{StringMap, get-put, get-delete}
use ais_tracking_system.Contracts.Json.{null}
use ais_tracking_system.Bus.{Thrown, error, returned, threw, StreamRedis}
use ais_tracking_system.Bus.FailureHandler.{Texts, BusConfig}
use ais_tracking_system.Bus.FailureHandler.Reports.{Effect, acked, written, IsLogged, IsLetter}
use ais_tracking_system.Bus.FailureHandler.Retries.{IsReliable, Exhausts, on_handler_error-Exhausts}
use ais_tracking_system.Bus.Dispatch.{BusState, ConsumerLoop, data_field, dispatch, dispatch_all}
use ais_tracking_system.Bus.Dispatch.Acknowledge.{
  Ends, IsMalformedLetter, args_of, dispatch_failed-Ends, dispatch_malformed-Ends,
}
use ais_tracking_system.Bus.Dispatch.Loop.{dispatch_all_stops}

-- The counters of attempts, and what was acknowledged and written.
record World : Type 0 where
  counters : StringMap ℕ
  effects : List Effect

abbrev attempts_of : World → String → ℕ
attempts_of w k = get_or_else (StringMap.get k w.counters) 0

abbrev effects_of : World → List Effect
effects_of w = w.effects

abbrev redis : StreamRedis World
redis = record {
  now = λ w. "t";
  hincrby = λ k f n w. (
    returned (suc (attempts_of w k)),
    record w { counters = StringMap.put k (suc (attempts_of w k)) w.counters },
  );
  hsetnx = λ k f v w. (returned tt, w);
  hset = λ k f v w. (returned tt, w);
  expire = λ k n w. (returned tt, w);
  hgetall = λ k w. (returned [], w);
  xadd = λ s n t w. (returned (some "1-0"), record w { effects = written s t ∷ w.effects });
  del = λ k w. (returned tt, record w { counters = StringMap.delete k w.counters });
  xack = λ s g id w. (returned tt, record w { effects = acked s g id ∷ w.effects });
}

abbrev failure : Thrown
failure = error "Error" "fails" none

-- A Redis that acknowledges nothing.
abbrev deaf : StreamRedis World
deaf = record redis { xack = λ s g id w. (threw failure, w) }

abbrev texts : Texts
texts = record { encode = λ s. s; slice = λ s n. s; stringify = λ j. "{}" }

abbrev config : BusConfig
config = record { stream_retry_limit = 3; stream_maxlen = 100000 }

-- A consumer whose handler always throws.
abbrev failing : ConsumerLoop World
failing = record { stream = "s"; group = "g"; handler = λ id payload w. (threw failure, w) }

abbrev world : World
world = record { counters = []; effects = [] }

abbrev start : BusState World
start = record { world = world; handler_errors = 0; deadletters = [] }

redis-IsLogged : IsLogged redis effects_of
redis-IsLogged = record {
  hincrby = λ k f n w. refl;
  hsetnx = λ k f v w. refl;
  hset = λ k f v w. refl;
  expire = λ k n w. refl;
  hgetall = λ k w. refl;
  del = λ k w. refl;
  xadd = λ s n t w. inr refl;
  xadd_returned = λ s n t w id e. refl;
  xack = λ s g id w. inr refl;
}

redis-IsReliable : IsReliable redis attempts_of
redis-IsReliable = record {
  hincrby = λ k w. refl;
  hincrby_counts = λ k w.
      rw (get-put k k (suc (attempts_of w k)) w.counters, if_pos (str_discrete k k) refl) refl;
  hsetnx = λ k f v w. refl;
  hsetnx_keeps = λ k f v w. refl;
  hset = λ k f v w. refl;
  hset_keeps = λ k f v w. refl;
  expire = λ k n w. refl;
  expire_keeps = λ k n w. refl;
  hgetall = λ k w. ([], refl);
  xadd = λ s n t w. (some "1-0", refl);
  del = λ k w. refl;
  del_resets = λ k w. rw (get-delete k k w.counters, if_pos (str_discrete k k) refl) refl;
}

dispatch_failed-Ends_example :
    Ends effects_of
      (IsLetter texts (args_of failing "1" null failure))
      []
      "s"
      "g"
      "1"
      (dispatch redis texts
        (λ raw. returned null)
        config
        failing
        "1"
        ("data" ∷ "null" ∷ [])
        start).1.world
unfolding data_field str_discrete
dispatch_failed-Ends_example =
    dispatch_failed-Ends redis texts (λ raw. returned null) config failing effects_of redis-IsLogged
      "1" "null" ("data" ∷ "null" ∷ []) null failure start refl refl refl refl

dispatch_malformed-Ends_example :
    Ends effects_of
      (IsMalformedLetter texts "1" "s" "g" "{" failure)
      []
      "s"
      "g"
      "1"
      (dispatch redis texts
        (λ raw. threw failure)
        config
        failing
        "1"
        ("data" ∷ "{" ∷ [])
        start).1.world
unfolding data_field str_discrete
dispatch_malformed-Ends_example =
    dispatch_malformed-Ends redis texts (λ raw. threw failure) config failing effects_of
      redis-IsLogged "1" "{" ("data" ∷ "{" ∷ []) failure start refl refl

dispatch_all_stops_example :
    dispatch_all deaf texts
      (λ raw. returned null)
      config
      failing
      (("1", []) ∷ ("2", "data" ∷ "null" ∷ []) ∷ [])
      start
    ≡ (threw failure, (dispatch deaf texts (λ raw. returned null) config failing "1" [] start).1)
unfolding dispatch_all data_field
dispatch_all_stops_example =
    dispatch_all_stops deaf texts (λ raw. returned null) config failing []
      (("2", "data" ∷ "null" ∷ []) ∷ []) "1" [] start start failure refl (inl ((λ raw q. cc), refl))

on_handler_error-Exhausts_example :
    Exhausts redis texts config attempts_of "s" "g" "1" null (failure ∷ failure ∷ []) failure world
unfolding StringMap.get
on_handler_error-Exhausts_example =
    on_handler_error-Exhausts redis texts config attempts_of redis-IsReliable "s" "g" "1" null
      (failure ∷ failure ∷ []) failure world refl
