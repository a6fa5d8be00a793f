-- ===== src/Bus/FailureHandler/Reports.antt =====
-- What the failure handler reports of a dead letter, and what it has done.
use ais_tracking_system.Prelude.{
  ℕ, ◌≡◌, refl, ◌∙◌, ap, ◌⊎◌, inl, inr, String, Bool, true, false, Option, List, ◌∷◌, ltb,
  if◌then◌else◌, get_or_else,
}
use ais_tracking_system.Prelude.StringMap.{StringMap}
use ais_tracking_system.Bus.{Outcome, returned, threw, Async, await, ◌>>◌, resolve, StreamRedis}
use ais_tracking_system.Bus.FailureHandler.{
  Texts, BusConfig, FailureAction, leave_unacked, deadletter_and_ack, OnHandlerErrorArgs,
  serialize_error, dlq_payload, deadletter, count_failure, on_handler_error, ais_deadletter_stream,
  counter_key, dead_letter_text, counter_ttl_seconds,
}

-- What a call of Redis has done.
pub data Effect : Type 0 where
  acked : (stream group id : String) → Effect
  written : (stream text : String) → Effect

-- Acknowledging and adding to a stream alone count. A call that is rejected may have had its
-- effect, and an `XADD` that returns has had it.
pub record IsLogged {W : Type 0} (redis : StreamRedis W) (log : W → List Effect) : Type 0 where
  pub hincrby : (k f : String) (n : ℕ) (w : W) → log (redis.hincrby k f n w).1 ≡ log w
  pub hsetnx : (k f v : String) (w : W) → log (redis.hsetnx k f v w).1 ≡ log w
  pub hset : (k f v : String) (w : W) → log (redis.hset k f v w).1 ≡ log w
  pub expire : (k : String) (n : ℕ) (w : W) → log (redis.expire k n w).1 ≡ log w
  pub hgetall : (k : String) (w : W) → log (redis.hgetall k w).1 ≡ log w
  pub del : (k : String) (w : W) → log (redis.del k w).1 ≡ log w
  pub xadd :
      (s : String) (n : ℕ) (t : String) (w : W)
      → (log (redis.xadd s n t w).1 ≡ log w) ⊎ (log (redis.xadd s n t w).1 ≡ written s t ∷ log w)
  pub xadd_returned :
      (s : String) (n : ℕ) (t : String) (w : W) (id : Option String)
      → (redis.xadd s n t w).0 ≡ returned id
      → log (redis.xadd s n t w).1 ≡ written s t ∷ log w
  pub xack :
      (s g id : String) (w : W)
      → (log (redis.xack s g id w).1 ≡ log w) ⊎ (log (redis.xack s g id w).1 ≡ acked s g id ∷ log w)

-- The dead letter of a message whose handler threw.
abbrev pub IsLetter : Texts → OnHandlerErrorArgs → String → Type 0
IsLetter texts args t =
    (attempts : ℕ) × (first last : String) × (t
      ≡ texts.stringify (dlq_payload args attempts first last (serialize_error texts args.thrown)))

module _ {W : Type 0} (log : W → List Effect) (Fits : String → Type 0) (before : List Effect) where
  -- The log has a fitting dead letter in addition.
  abbrev pub HasLetter : W → Type 0
  HasLetter w = (t : String) × Fits t × (log w ≡ written ais_deadletter_stream t ∷ before)

  -- What the failure handler reports is so; if it throws, the dead letter may be there.
  abbrev pub Reports : Outcome FailureAction × W → Type 0
  Reports (threw e, w) = (log w ≡ before) ⊎ HasLetter w
  Reports (returned (leave_unacked n), w) = log w ≡ before
  Reports (returned (deadletter_and_ack n id), w) = HasLetter w

  await-Reports :
      {A : Type 0} (r : Outcome A × W) (f : A → Async W FailureAction)
      → log r.1 ≡ before
      → ((a : A) (w : W) → log w ≡ before → Reports (f a w))
      → Reports (await r f)
  await-Reports (threw e, w) f q h = inl q
  await-Reports (returned a, w) f q h = h a w q

module _ {W : Type 0} (redis : StreamRedis W) (texts : Texts) (config : BusConfig)
    (log : W → List Effect) (laws : IsLogged redis log) (before : List Effect) where
  delete-Reports :
      (args : OnHandlerErrorArgs) (n : ℕ) (id : Option String) (r : Outcome (Unit {0}) × W)
      → HasLetter log (IsLetter texts args) before r.1
      → Reports log
          (IsLetter texts args)
          before
          (await r (λ done. resolve (deadletter_and_ack n (get_or_else id ""))))
  delete-Reports args n id (threw e, w) h = inr h
  delete-Reports args n id (returned done, w) h = h

  deadletter-Reports :
      (args : OnHandlerErrorArgs) (key now : String) (n : ℕ) (w : W)
      → log w ≡ before
      → Reports log (IsLetter texts args) before (deadletter redis texts config args key now n w)
  unfolding deadletter
  deadletter-Reports args key now n w q =
      await-Reports log (IsLetter texts args) before (redis.hgetall key w) _
        (laws.hgetall key w ∙ q) (λ meta v q'. added meta v q')
    where
      text : StringMap String → String
      text meta = dead_letter_text redis texts config args now n meta

      letter :
          (meta : StringMap String) (w : W)
          → log w ≡ written ais_deadletter_stream (text meta) ∷ before
          → HasLetter log (IsLetter texts args) before w
      letter meta w e = (text meta, (n, _, _, refl), e)

      written_by :
          (meta : StringMap String) (v : W) (r : Outcome (Option String) × W)
          → log v ≡ before
          → (log r.1 ≡ log v) ⊎ (log r.1 ≡ written ais_deadletter_stream (text meta) ∷ log v)
          → ((id : Option String)
              → r.0 ≡ returned id
              → log r.1 ≡ written ais_deadletter_stream (text meta) ∷ log v)
          → Reports log
              (IsLetter texts args)
              before
              (await r (λ id. redis.del key >> resolve (deadletter_and_ack n (get_or_else id ""))))
      written_by meta v (threw e, u) q' (inl same) done = inl (same ∙ q')
      written_by meta v (threw e, u) q' (inr more) done =
          inr (letter meta u (more ∙ ap (λ l. written ais_deadletter_stream (text meta) ∷ l) q'))
      written_by meta v (returned id, u) q' either done =
          delete-Reports args n id (redis.del key u) (
            letter meta (redis.del key u).1 (
              laws.del key u
              ∙ done id refl
              ∙ ap (λ l. written ais_deadletter_stream (text meta) ∷ l) q'))

      added :
          (meta : StringMap String) (v : W)
          → log v ≡ before
          → Reports log (IsLetter texts args) before (
              await
                (redis.xadd ais_deadletter_stream config.stream_maxlen (text meta) v)
                (λ id. redis.del key >> resolve (deadletter_and_ack n (get_or_else id ""))))
      added meta v q' =
          written_by meta v (redis.xadd ais_deadletter_stream config.stream_maxlen (text meta) v) q'
            (laws.xadd ais_deadletter_stream config.stream_maxlen (text meta) v)
            (λ id e.
              laws.xadd_returned ais_deadletter_stream config.stream_maxlen (text meta) v id e)

  if-Reports :
      (args : OnHandlerErrorArgs) (b : Bool) (n : ℕ) (m : Async W FailureAction) (w : W)
      → log w ≡ before
      → Reports log (IsLetter texts args) before (m w)
      → Reports log (IsLetter texts args) before ((if b then resolve (leave_unacked n) else m) w)
  if-Reports args true n m w q h = q
  if-Reports args false n m w q h = h

  count_failure-Reports :
      (args : OnHandlerErrorArgs) (key now : String) (w : W)
      → log w ≡ before
      → Reports log (IsLetter texts args) before (count_failure redis texts config args key now w)
  unfolding count_failure
  count_failure-Reports args key now w q =
      await-Reports log (IsLetter texts args) before (redis.hincrby key "attempts" 1 w) _
        (laws.hincrby key _ _ w ∙ q)
        (λ n w1 q1.
          await-Reports log (IsLetter texts args) before (redis.hsetnx key "firstFailedAt" now w1) _
            (laws.hsetnx key _ now w1 ∙ q1)
            (λ d1 w2 q2.
              await-Reports log (IsLetter texts args) before (redis.hset key "lastFailedAt" now w2)
                _ (laws.hset key _ now w2 ∙ q2)
                (λ d2 w3 q3.
                  await-Reports log (IsLetter texts args) before
                    (redis.expire key counter_ttl_seconds w3) _ (laws.expire key _ w3 ∙ q3)
                    (λ d3 w4 q4.
                      if-Reports args (ltb n config.stream_retry_limit) n
                        (deadletter redis texts config args key now n) w4 q4
                        (deadletter-Reports args key now n w4 q4)))))

  pub on_handler_error-Reports :
      (args : OnHandlerErrorArgs) (w : W)
      → log w ≡ before
      → Reports log (IsLetter texts args) before (on_handler_error redis texts config args w)
  unfolding on_handler_error
  on_handler_error-Reports args w q =
      count_failure-Reports args (counter_key texts args.stream args.group args.message_id)
        (redis.now w) w q
