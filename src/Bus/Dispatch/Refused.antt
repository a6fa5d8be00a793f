-- ===== src/Bus/Dispatch/Refused.antt =====
-- When the dispatch of an entry is rejected.
use ais_tracking_system.Prelude.{◌≡◌, ◌≢◌, refl, sym, subst, ℕ, suc, String, ◌⊎◌, inl, inr}
use ais_tracking_system.Contracts.Json.{Json}
use ais_tracking_system.Bus.{Thrown, Outcome, returned, threw, await, StreamRedis}
use ais_tracking_system.Bus.FailureHandler.{
  Texts, BusConfig, FailureAction, leave_unacked, deadletter_and_ack, on_handler_error,
}
use ais_tracking_system.Bus.Dispatch.{
  BusState, ConsumerLoop, DataField, missing, empty, value, ack, after_failure, after_handler,
  handle_payload, deadletter_malformed, dispatch_data,
}

module _ {W : Type 0} (redis : StreamRedis W) (texts : Texts) (parse : String → Outcome Json)
    (config : BusConfig) (loop : ConsumerLoop W) where
  -- The handler and the acknowledgement that follows it.
  abbrev pub handled : String → Json → W → Outcome (Unit {0}) × W
  handled id payload w =
      await (loop.handler id payload w) (λ done. redis.xack loop.stream loop.group id)

  abbrev pub failed : String → Json → Thrown → W → Outcome FailureAction × W
  failed id payload thrown = on_handler_error redis texts config (record {
    stream = loop.stream;
    group = loop.group;
    message_id = id;
    payload = payload;
    thrown = thrown;
  })

  -- The acknowledgement after a dead letter is rejected.
  abbrev pub IsRefusedLate : String → Json → Thrown → Outcome (Unit {0}) × W → Type 0
  IsRefusedLate id payload e (o, w) =
      (thrown : Thrown) × (attempts : ℕ) × (letter : String) × (o ≡ threw thrown)
      × ((failed id payload thrown w).0 ≡ returned (deadletter_and_ack attempts letter))
      × ((redis.xack loop.stream loop.group id (failed id payload thrown w).1).0 ≡ threw e)

  -- The XACK of an entry is rejected: of one without data, or of one whose data is JSON and whose
  -- handling failed and led to a dead letter.
  abbrev pub IsUnacked : String → DataField → W → Thrown → Type 0
  IsUnacked id d w e =
      (((raw : String) → d ≢ value raw) × ((redis.xack loop.stream loop.group id w).0 ≡ threw e))
      ⊎ ((raw : String) × (payload : Json) × (d ≡ value raw)
          × (parse raw ≡ returned payload)
          × IsRefusedLate id payload e (handled id payload w))

  after_failure-threw :
      (id : String) (o : Outcome FailureAction) (s : BusState W) (e : Thrown)
      → (after_failure redis texts parse config loop id o s).0 ≡ threw e
      → (attempts : ℕ) × (letter : String) × (o ≡ returned (deadletter_and_ack attempts letter))
        × ((redis.xack loop.stream loop.group id s.world).0 ≡ threw e)
  unfolding after_failure ack
  after_failure-threw id (threw d) s e h = cc
  after_failure-threw id (returned (leave_unacked n)) s e h = cc
  after_failure-threw id (returned (deadletter_and_ack n l)) s e h = (n, l, refl, h)

  after_handler-threw :
      (id : String) (payload : Json) (o : Outcome (Unit {0})) (s : BusState W) (e : Thrown)
      → (after_handler redis texts parse config loop id payload o s).0 ≡ threw e
      → IsRefusedLate id payload e (o, s.world)
  unfolding after_handler
  after_handler-threw id payload (returned done) s e h = cc
  after_handler-threw id payload (threw d) s e h =
      let (n, l, f, x) = after_failure-threw id (failed id payload d s.world).0 _ e h in
      (d, n, l, refl, f, x)

  threw-after_handler :
      (id : String) (payload : Json) (o : Outcome (Unit {0})) (s : BusState W) (e : Thrown)
      → IsRefusedLate id payload e (o, s.world)
      → (after_handler redis texts parse config loop id payload o s).0 ≡ threw e
  unfolding after_handler after_failure ack
  threw-after_handler id payload o s e (d, n, l, q, f, x) =
      subst (λ o. (after_handler redis texts parse config loop id payload o s).0 ≡ threw e) (sym q)
        (subst
          (λ a.
            (after_failure redis texts parse config loop id a (record s {
              world = (failed id payload d s.world).1;
              handler_errors = suc s.handler_errors;
            })).0
            ≡ threw e)
          (sym f) x)

  -- The handler in the state of the bus.
  on_world-handled :
      (id : String) (r : Outcome (Unit {0}) × W) (s : BusState W)
      → (let whole =
            await (r.0, record s { world = r.1 }) (λ done. ack redis texts parse config loop id) in
          (whole.0, whole.1.world))
        ≡ await r (λ done. redis.xack loop.stream loop.group id)
  unfolding ack
  on_world-handled id (threw d, w) s = refl
  on_world-handled id (returned done, w) s = refl

  handle_payload-threw :
      (id raw : String) (o : Outcome Json) (s : BusState W) (e : Thrown)
      → (handle_payload redis texts parse config loop id raw o s).0 ≡ threw e
      → (payload : Json) × (o ≡ returned payload)
        × IsRefusedLate id payload e (handled id payload s.world)
  unfolding handle_payload deadletter_malformed
  handle_payload-threw id raw (threw d) s e h = cc
  handle_payload-threw id raw (returned payload) s e h = (
    payload,
    refl,
    subst (IsRefusedLate id payload e) (on_world-handled id (loop.handler id payload s.world) s)
        (after_handler-threw id payload _ _ e h),
  )

  threw-handle_payload :
      (id raw : String) (payload : Json) (s : BusState W) (e : Thrown)
      → IsRefusedLate id payload e (handled id payload s.world)
      → (handle_payload redis texts parse config loop id raw (returned payload) s).0 ≡ threw e
  unfolding handle_payload
  threw-handle_payload id raw payload s e h = threw-after_handler id payload _ _ e (
      subst (IsRefusedLate id payload e)
        (sym (on_world-handled id (loop.handler id payload s.world) s)) h)

  pub dispatch_data-threw :
      (id : String) (d : DataField) (s : BusState W) (e : Thrown)
      → (dispatch_data redis texts parse config loop id d s).0 ≡ threw e
      → IsUnacked id d s.world e
  unfolding ack
  dispatch_data-threw id missing s e h = inl ((λ raw q. cc), h)
  dispatch_data-threw id empty s e h = inl ((λ raw q. cc), h)
  dispatch_data-threw id (value raw) s e h =
      let (payload, p, late) = handle_payload-threw id raw (parse raw) s e h in
      inr (raw, payload, refl, p, late)

  pub threw-dispatch_data :
      (id : String) (d : DataField) (s : BusState W) (e : Thrown)
      → IsUnacked id d s.world e
      → (dispatch_data redis texts parse config loop id d s).0 ≡ threw e
  unfolding ack
  threw-dispatch_data id missing s e (inl (none_there, x)) = x
  threw-dispatch_data id empty s e (inl (none_there, x)) = x
  threw-dispatch_data id (value raw) s e (inl (none_there, x)) = absurd (none_there raw refl)
  threw-dispatch_data id d s e (inr (raw, payload, q, p, late)) =
      subst (λ d. (dispatch_data redis texts parse config loop id d s).0 ≡ threw e) (sym q)
        (subst (λ o. (handle_payload redis texts parse config loop id raw o s).0 ≡ threw e) (sym p)
          (threw-handle_payload id raw payload s e late))
