-- ===== src/Bus/FailureHandler/Retries.antt =====
-- The retries of a message that fails again and again.
use ais_tracking_system.Prelude.{
  ℕ, suc, ◌+◌, ◌<◌, ◌≡◌, refl, ◌∙◌, ap, String, true, false, Option, List, [], ◌∷◌, ltb,
  if◌then◌else◌, get_or_else, length, arith,
}
use ais_tracking_system.Prelude.StringMap.{StringMap}
use ais_tracking_system.Contracts.Json.{Json}
use ais_tracking_system.Bus.{Thrown, Outcome, returned, threw, Async, await, resolve, StreamRedis}
use ais_tracking_system.Bus.FailureHandler.{
  Texts, BusConfig, FailureAction, leave_unacked, deadletter_and_ack, OnHandlerErrorArgs,
  deadletter, count_failure, on_handler_error, ais_deadletter_stream, counter_key, dead_letter_text,
  counter_ttl_seconds,
}

-- Every call returns, `HINCRBY` counts in a key's field `attempts`, `DEL` resets it, and no other
-- call changes it.
pub record IsReliable {W : Type 0} (redis : StreamRedis W) (attempts : W → String → ℕ)
    : Type 0 where
  pub hincrby :
      (k : String) (w : W) → (redis.hincrby k "attempts" 1 w).0 ≡ returned (suc (attempts w k))
  pub hincrby_counts :
      (k : String) (w : W) → attempts (redis.hincrby k "attempts" 1 w).1 k ≡ suc (attempts w k)
  pub hsetnx : (k f v : String) (w : W) → (redis.hsetnx k f v w).0 ≡ returned tt
  pub hsetnx_keeps : (k f v : String) (w : W) → attempts (redis.hsetnx k f v w).1 k ≡ attempts w k
  pub hset : (k f v : String) (w : W) → (redis.hset k f v w).0 ≡ returned tt
  pub hset_keeps : (k f v : String) (w : W) → attempts (redis.hset k f v w).1 k ≡ attempts w k
  pub expire : (k : String) (n : ℕ) (w : W) → (redis.expire k n w).0 ≡ returned tt
  pub expire_keeps : (k : String) (n : ℕ) (w : W) → attempts (redis.expire k n w).1 k ≡ attempts w k
  pub hgetall : (k : String) (w : W) → (m : StringMap String) × ((redis.hgetall k w).0 ≡ returned m)
  pub xadd :
      (s : String) (n : ℕ) (t : String) (w : W)
      → (id : Option String) × ((redis.xadd s n t w).0 ≡ returned id)
  pub del : (k : String) (w : W) → (redis.del k w).0 ≡ returned tt
  pub del_resets : (k : String) (w : W) → attempts (redis.del k w).1 k ≡ 0

abbrev value_or : {A : Type 0} → A → Outcome A → A
value_or b (returned x) = x
value_or b (threw e) = b

await-returned :
    {W A B : Type 0} (r : Outcome A × W) (f : A → Async W B) (a : A)
    → r.0 ≡ returned a
    → await r f ≡ f a r.1
await-returned (threw e, w) f a h = cc
await-returned (returned b, w) f a h = ap (λ x. f (value_or b x) w) h

ltb_lt : (a b : ℕ) → a < b → ltb a b ≡ true
ltb_lt a b h = ground arith

ltb_self : (a : ℕ) → ltb a a ≡ false
ltb_self a = ground arith

module _ {W : Type 0} (redis : StreamRedis W) (texts : Texts) (config : BusConfig) where
  -- The failures of one message, which may throw different things.
  abbrev pub fails_with : String → String → String → Json → Thrown → Async W FailureAction
  fails_with stream group id payload e =
      on_handler_error redis texts config
        (record { stream = stream; group = group; message_id = id; payload = payload; thrown = e })

module _ {W : Type 0} (redis : StreamRedis W) (texts : Texts) (config : BusConfig)
    (attempts : W → String → ℕ) where
  -- Each of the failures leaves the message unacknowledged, and the counter counts them.
  abbrev pub AllRetried : String → String → String → Json → List Thrown → W → Type 0
  AllRetried stream group id payload [] w = Unit {0}
  AllRetried stream group id payload (e ∷ errors) w =
      ((fails_with redis texts config stream group id payload e w).0
        ≡ returned (leave_unacked (suc (attempts w (counter_key texts stream group id)))))
      × AllRetried stream group id payload errors
          (fails_with redis texts config stream group id payload e w).1

  abbrev pub after_all : String → String → String → Json → List Thrown → W → W
  after_all stream group id payload [] w = w
  after_all stream group id payload (e ∷ errors) w =
      after_all stream group id payload errors
        (fails_with redis texts config stream group id payload e w).1

  -- The last failure before the limit, after the others.
  abbrev pub Exhausts : String → String → String → Json → List Thrown → Thrown → W → Type 0
  Exhausts stream group id payload errors last w =
      AllRetried stream group id payload errors w
      × (letter : String) × ((fails_with redis texts config stream group id payload last
            (after_all stream group id payload errors w)).0
          ≡ returned (deadletter_and_ack config.stream_retry_limit letter))
      × (attempts
            (fails_with redis texts config stream group id payload last
              (after_all stream group id payload errors w)).1
            (counter_key texts stream group id)
          ≡ 0)

module _ {W : Type 0} (redis : StreamRedis W) (texts : Texts) (config : BusConfig)
    (attempts : W → String → ℕ) (laws : IsReliable redis attempts) where
  abbrev after_counting : String → String → W → W
  after_counting key now w =
      (redis.expire key counter_ttl_seconds
        (redis.hset key "lastFailedAt" now
          (redis.hsetnx key "firstFailedAt" now (redis.hincrby key "attempts" 1 w).1).1).1).1

  after_counting_lem :
      (key now : String) (w : W) → attempts (after_counting key now w) key ≡ suc (attempts w key)
  after_counting_lem key now w =
      laws.expire_keeps key _ _
      ∙ laws.hset_keeps key _ _ _
      ∙ laws.hsetnx_keeps key _ _ _
      ∙ laws.hincrby_counts key w

  count_failure_lem :
      (args : OnHandlerErrorArgs) (key now : String) (w : W)
      → count_failure redis texts config args key now w
        ≡ (if ltb (suc (attempts w key)) config.stream_retry_limit
              then resolve (leave_unacked (suc (attempts w key)))
              else deadletter redis texts config args key now (suc (attempts w key)))
            (after_counting key now w)
  unfolding count_failure
  count_failure_lem args key now w =
      await-returned (redis.hincrby key "attempts" 1 w) _ (suc (attempts w key))
        (laws.hincrby key w)
      ∙ await-returned (redis.hsetnx key "firstFailedAt" now (redis.hincrby key "attempts" 1 w).1) _
          tt (laws.hsetnx key _ _ _)
      ∙ await-returned
          (redis.hset key "lastFailedAt" now
            (redis.hsetnx key "firstFailedAt" now (redis.hincrby key "attempts" 1 w).1).1)
          _ tt (laws.hset key _ _ _)
      ∙ await-returned
          (redis.expire key counter_ttl_seconds
            (redis.hset key "lastFailedAt" now
              (redis.hsetnx key "firstFailedAt" now (redis.hincrby key "attempts" 1 w).1).1).1)
          _ tt (laws.expire key _ _)

  deadletter_lem :
      (args : OnHandlerErrorArgs) (key now : String) (n : ℕ) (w : W)
      → (id : String) × ((deadletter redis texts config args key now n w).0
          ≡ returned (deadletter_and_ack n id))
        × (attempts (deadletter redis texts config args key now n w).1 key ≡ 0)
  unfolding deadletter
  deadletter_lem args key now n w =
      let (meta, got) = laws.hgetall key w in
      let w1 = (redis.hgetall key w).1 in
      let text = dead_letter_text redis texts config args now n meta in
      let (id, put) = laws.xadd ais_deadletter_stream config.stream_maxlen text w1 in
      let w2 = (redis.xadd ais_deadletter_stream config.stream_maxlen text w1).1 in
      let same =
        await-returned (redis.hgetall key w) _ meta got
        ∙ await-returned (redis.xadd ais_deadletter_stream config.stream_maxlen text w1) _ id put
        ∙ await-returned (redis.del key w2) _ tt (laws.del key w2) in
      (
        get_or_else id "",
        ap (λ r. r.0) same,
        ap (λ r. attempts r.1 key) same ∙ laws.del_resets key w2,
      )

  retried :
      (stream group id : String) (payload : Json) (e : Thrown) (w : W)
      → suc (attempts w (counter_key texts stream group id)) < config.stream_retry_limit
      → ((fails_with redis texts config stream group id payload e w).0
          ≡ returned (leave_unacked (suc (attempts w (counter_key texts stream group id)))))
        × (attempts
              (fails_with redis texts config stream group id payload e w).1
              (counter_key texts stream group id)
            ≡ suc (attempts w (counter_key texts stream group id)))
  unfolding on_handler_error
  retried stream group id payload e w below =
      let key = counter_key texts stream group id in
      let same =
        count_failure_lem
          (record {
            stream = stream;
            group = group;
            message_id = id;
            payload = payload;
            thrown = e;
          })
          key (redis.now w) w in
      rw (same, ltb_lt (suc (attempts w key)) config.stream_retry_limit below)
        (refl, after_counting_lem key (redis.now w) w)

  deadlettered :
      (stream group id : String) (payload : Json) (e : Thrown) (w : W)
      → suc (attempts w (counter_key texts stream group id)) ≡ config.stream_retry_limit
      → (letter : String) × ((fails_with redis texts config stream group id payload e w).0
          ≡ returned (deadletter_and_ack config.stream_retry_limit letter))
        × (attempts
              (fails_with redis texts config stream group id payload e w).1
              (counter_key texts stream group id)
            ≡ 0)
  unfolding on_handler_error
  deadlettered stream group id payload e w reached =
      let key = counter_key texts stream group id in
      let args : OnHandlerErrorArgs = record {
        stream = stream;
        group = group;
        message_id = id;
        payload = payload;
        thrown = e;
      } in
      let same = count_failure_lem args key (redis.now w) w in
      rw (same, reached, ltb_self config.stream_retry_limit)
        (deadletter_lem args key (redis.now w) config.stream_retry_limit
          (after_counting key (redis.now w) w))

  -- Where every call of Redis returns: a message that fails as often as the retry limit is left
  -- unacknowledged at each failure but the last one, and is dead-lettered with the limit as its
  -- attempts at the last one, which resets its counter. The failures are counted from the attempts
  -- that the counter has at the start.
  pub on_handler_error-Exhausts :
      (stream group id : String) (payload : Json) (errors : List Thrown) (last : Thrown) (w : W)
      → suc (attempts w (counter_key texts stream group id) + length errors)
        ≡ config.stream_retry_limit
      → Exhausts redis texts config attempts stream group id payload errors last w
  on_handler_error-Exhausts stream group id payload [] last w reached =
      let (letter, same, reset) =
        deadlettered stream group id payload last w (omega (arith, reached)) in
      (tt, letter, same, reset)
  on_handler_error-Exhausts stream group id payload (e ∷ errors) last w reached =
      let (same, counts) = retried stream group id payload e w (omega (arith, reached)) in
      let rest =
        on_handler_error-Exhausts stream group id payload errors last
          (fails_with redis texts config stream group id payload e w).1
          (omega (arith, reached, counts)) in
      ((same, rest.0), rest.1, rest.2, rest.3)
