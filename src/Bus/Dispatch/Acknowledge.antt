-- ===== src/Bus/Dispatch/Acknowledge.antt =====
-- When a message that fails is acknowledged.
use ais_tracking_system.Prelude.{
  suc, ◌≡◌, refl, sym, ◌∙◌, ap, subst, ◌⊎◌, inl, inr, String, Option, List, ◌∷◌,
}
use ais_tracking_system.Contracts.Json.{Json}
use ais_tracking_system.Bus.{Thrown, Outcome, returned, threw, await, attempt, StreamRedis}
use ais_tracking_system.Bus.FailureHandler.{
  Texts, BusConfig, FailureAction, leave_unacked, deadletter_and_ack, OnHandlerErrorArgs,
  serialize_error, on_handler_error, ais_deadletter_stream,
}
use ais_tracking_system.Bus.FailureHandler.Reports.{
  Effect, acked, written, IsLogged, IsLetter, HasLetter, Reports, on_handler_error-Reports,
}
use ais_tracking_system.Bus.Dispatch.{
  BusState, ConsumerLoop, value, data_field, dispatch, dispatch_data, handle_payload,
  deadletter_malformed, after_handler, after_failure, ack, malformed_text, malformed_payload,
  invalid_json, count_deadletter, swallow,
}

-- The dead letter of a message that is no JSON.
abbrev pub IsMalformedLetter : Texts → String → String → String → String → Thrown → String → Type 0
IsMalformedLetter texts id stream group raw e t =
    (now : String) × (t
      ≡ texts.stringify (malformed_payload id stream group raw now (serialize_error texts e)))

module _ {W : Type 0} (log : W → List Effect) (Fits : String → Type 0) (before : List Effect)
    (stream group id : String) where
  -- The message is pending, or pending with its dead letter written, or has its dead letter written
  -- and is acknowledged, in that order.
  abbrev pub Ends : W → Type 0
  Ends w =
      (log w ≡ before)
      ⊎ (HasLetter log Fits before w
          ⊎ ((t : String) × Fits t
              × (log w ≡ acked stream group id ∷ written ais_deadletter_stream t ∷ before)))

  acked-Ends :
      (w w' : W)
      → HasLetter log Fits before w
      → (log w' ≡ log w) ⊎ (log w' ≡ acked stream group id ∷ log w)
      → Ends w'
  acked-Ends w w' (t, fits, e) (inl same) = inr (inl (t, fits, same ∙ e))
  acked-Ends w w' (t, fits, e) (inr more) =
      inr (inr (t, fits, more ∙ ap (λ l. acked stream group id ∷ l) e))

-- What `dispatch` hands to the failure handler.
abbrev pub args_of : {W : Type 0} → ConsumerLoop W → String → Json → Thrown → OnHandlerErrorArgs
args_of loop id payload e = record {
  stream = loop.stream;
  group = loop.group;
  message_id = id;
  payload = payload;
  thrown = e;
}

module _ {W : Type 0} (redis : StreamRedis W) (texts : Texts) (parse : String → Outcome Json)
    (config : BusConfig) (loop : ConsumerLoop W) (log : W → List Effect)
    (laws : IsLogged redis log) where
  after_failure-Ends :
      (Fits : String → Type 0) (before : List Effect) (id : String) (r : Outcome FailureAction × W)
      (s : BusState W)
      → Reports log Fits before r
      → Ends log Fits before loop.stream loop.group id
          (after_failure redis texts parse config loop id r.0 (record s { world = r.1 })).1.world
  unfolding after_failure ack
  after_failure-Ends Fits before id (threw e, w) s (inl same) = inl same
  after_failure-Ends Fits before id (threw e, w) s (inr letter) = inr (inl letter)
  after_failure-Ends Fits before id (returned (leave_unacked n), w) s h = inl h
  after_failure-Ends Fits before id (returned (deadletter_and_ack n l), w) s h =
      acked-Ends log Fits before loop.stream loop.group id w
        (redis.xack loop.stream loop.group id w).1 h (laws.xack loop.stream loop.group id w)

  handler_threw-Ends :
      (id : String) (payload : Json) (e : Thrown) (before : List Effect) (s : BusState W)
      (r : Outcome (Unit {0}) × W)
      → r.0 ≡ threw e
      → log r.1 ≡ before
      → Ends log
          (IsLetter texts (args_of loop id payload e))
          before
          loop.stream
          loop.group
          id
          (await
            (attempt
              (λ s.
                await
                  (r.0, record s { world = r.1 })
                  (λ done. ack redis texts parse config loop id))
              s)
            (after_handler redis texts parse config loop id payload)).1.world
  unfolding after_handler
  handler_threw-Ends id payload e before s (returned done, w) h q = cc
  handler_threw-Ends id payload e before s (threw e', w) h q =
      subst
        (λ x.
          Ends log (IsLetter texts (args_of loop id payload x)) before loop.stream loop.group id
            (await (attempt (λ s. (threw e', record s { world = w })) s)
              (after_handler redis texts parse config loop id payload)).1.world)
        (ap (thrown_or e') h)
        (after_failure-Ends (IsLetter texts (args_of loop id payload e')) before id
          (on_handler_error redis texts config (args_of loop id payload e') w)
          (record s { world = w; handler_errors = suc s.handler_errors })
          (on_handler_error-Reports redis texts config log laws before (args_of loop id payload e')
            w q))
    where
      thrown_or : Thrown → Outcome (Unit {0}) → Thrown
      thrown_or d (threw x) = x
      thrown_or d (returned done) = d

  -- A message whose handler throws ends in one of three ways, whichever calls of Redis are
  -- rejected: it stays pending and nothing is written; its dead letter is written and it stays
  -- pending; or its dead letter is written and then it is acknowledged. The dead letter holds the
  -- message's event, origin and error. The handler itself is taken to neither acknowledge nor write
  -- dead letters.
  pub dispatch_failed-Ends :
      (id raw : String) (fields : List String) (payload : Json) (e : Thrown) (s : BusState W)
      → data_field fields ≡ value raw
      → parse raw ≡ returned payload
      → (loop.handler id payload s.world).0 ≡ threw e
      → log (loop.handler id payload s.world).1 ≡ log s.world
      → Ends log
          (IsLetter texts (args_of loop id payload e))
          (log s.world)
          loop.stream
          loop.group
          id
          (dispatch redis texts parse config loop id fields s).1.world
  unfolding dispatch handle_payload
  dispatch_failed-Ends id raw fields payload e s found parsed fails quiet =
      subst
        (λ d.
          Ends log (IsLetter texts (args_of loop id payload e)) (log s.world) loop.stream loop.group
            id (dispatch_data redis texts parse config loop id d s).1.world)
        (sym found)
        (subst
          (λ o.
            Ends log (IsLetter texts (args_of loop id payload e)) (log s.world) loop.stream
              loop.group id (handle_payload redis texts parse config loop id raw o s).1.world)
          (sym parsed)
          (handler_threw-Ends id payload e (log s.world) s (loop.handler id payload s.world) fails
            quiet))

  malformed_written-Ends :
      (Fits : String → Type 0) (before : List Effect) (id t : String) (s : BusState W)
      (r : Outcome (Option String) × W)
      → Fits t
      → (log r.1 ≡ before) ⊎ (log r.1 ≡ written ais_deadletter_stream t ∷ before)
      → ((x : Option String)
          → r.0 ≡ returned x
          → log r.1 ≡ written ais_deadletter_stream t ∷ before)
      → Ends log Fits before loop.stream loop.group id
          (await
            (attempt
              (λ s.
                await
                  (await (r.0, record s { world = r.1 }) (λ x. count_deadletter invalid_json))
                  (λ done. ack redis texts parse config loop id))
              s)
            swallow).1.world
  unfolding ack
  malformed_written-Ends Fits before id t s (threw e, w) fits (inl same) done = inl same
  malformed_written-Ends Fits before id t s (threw e, w) fits (inr more) done =
      inr (inl (t, fits, more))
  malformed_written-Ends Fits before id t s (returned x, w) fits either done =
      acked-Ends log Fits before loop.stream loop.group id w
        (redis.xack loop.stream loop.group id w).1 (t, fits, done x refl)
        (laws.xack loop.stream loop.group id w)

  -- A message whose data is no JSON ends in one of the same three ways, and its dead letter holds
  -- the data, the message's origin and the parser's error.
  pub dispatch_malformed-Ends :
      (id raw : String) (fields : List String) (e : Thrown) (s : BusState W)
      → data_field fields ≡ value raw
      → parse raw ≡ threw e
      → Ends log
          (IsMalformedLetter texts id loop.stream loop.group raw e)
          (log s.world)
          loop.stream
          loop.group
          id
          (dispatch redis texts parse config loop id fields s).1.world
  unfolding dispatch handle_payload deadletter_malformed
  dispatch_malformed-Ends id raw fields e s found parsed =
      let text = malformed_text redis texts parse config loop id raw e s.world in
      subst
        (λ d.
          Ends log (IsMalformedLetter texts id loop.stream loop.group raw e) (log s.world)
            loop.stream loop.group id (dispatch_data redis texts parse config loop id d s).1.world)
        (sym found)
        (subst
          (λ o.
            Ends log (IsMalformedLetter texts id loop.stream loop.group raw e) (log s.world)
              loop.stream loop.group id
              (handle_payload redis texts parse config loop id raw o s).1.world)
          (sym parsed)
          (malformed_written-Ends (IsMalformedLetter texts id loop.stream loop.group raw e)
            (log s.world) id text s
            (redis.xadd ais_deadletter_stream config.stream_maxlen text s.world)
            (redis.now s.world, refl)
            (laws.xadd ais_deadletter_stream config.stream_maxlen text s.world)
            (λ x h.
              laws.xadd_returned ais_deadletter_stream config.stream_maxlen text s.world x h)))
