-- ===== src/Bus.antt =====
-- The event bus over Redis streams (src/shared/bus): promises that keep the reason of a rejection,
-- and the calls of Redis that the bus makes.
pub mod FailureHandler
pub mod Dispatch
pub mod Publish
pub mod Tests
use ais_tracking_system.Prelude.{ℕ, String, Option, none, some}
use ais_tracking_system.Prelude.StringMap.{StringMap}

-- What `throw` throws: an `Error`, with its `stack` if that is a text, or anything else but null
-- and undefined, with what
-- `String(err)` returns if it does not throw.
pub data Thrown : Type 0 where
  error : (name message : String) (stack : Option String) → Thrown
  other : (text : Option String) → Thrown

pub data Outcome (A : Type 0) : Type 0 where
  returned : A → Outcome A
  threw : Thrown → Outcome A

abbrev pub Async : Type 0 → Type 0 → Type 0
Async W A = W → Outcome A × W

abbrev pub await : {W A B : Type 0} → Outcome A × W → (A → Async W B) → Outcome B × W
await (threw e, w) f = (threw e, w)
await (returned a, w) f = f a w

infixl 5 ◌>>=◌ ◌>>◌
abbrev pub ◌>>=◌ : {W A B : Type 0} → Async W A → (A → Async W B) → Async W B
(m >>= f) w = await (m w) f

abbrev pub ◌>>◌ : {W A B : Type 0} → Async W A → Async W B → Async W B
m >> k = m >>= λ _. k

abbrev pub resolve : {W A : Type 0} → A → Async W A
resolve a w = (returned a, w)

-- `try`, with the rest of the function given what came of it.
abbrev pub attempt : {W A : Type 0} → Async W A → Async W (Outcome A)
attempt m w = let (o, w') = m w in (returned o, w')

-- The calls of Redis, and the clock. `xadd stream max_len text` is
-- `XADD stream MAXLEN ~ max_len * data text`.
pub record StreamRedis (W : Type 0) : Type 0 where
  pub now : W → String
  pub hincrby : String → String → ℕ → Async W ℕ
  pub hsetnx : String → String → String → Async W (Unit {0})
  pub hset : String → String → String → Async W (Unit {0})
  pub expire : String → ℕ → Async W (Unit {0})
  pub hgetall : String → Async W (StringMap String)
  pub xadd : String → ℕ → String → Async W (Option String)
  pub del : String → Async W (Unit {0})
  pub xack : String → String → String → Async W (Unit {0})
