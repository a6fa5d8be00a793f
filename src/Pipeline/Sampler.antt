-- ===== src/Pipeline/Sampler.antt =====
-- The sampler, which thins out a vessel's positions (src/pipeline/sampler.service.ts).
-- `JSON.parse` and `JSON.stringify` are parameters, as is `Date.parse`, where `none` stands for NaN.
pub mod Again
use ais_tracking_system.Prelude.{
  ℕ, ◌*◌, String, ◌<>◌, Bool, true, false, not, ◌&&◌, Option, none, some, ite, str_discrete,
  if◌then◌else◌, get_or_else,
}
use ais_tracking_system.Prelude.Double.{Double, of_nat, eq_Double, ltb_Double}
use ais_tracking_system.Prelude.Int.{ℤ, pos, ◌-ℤ◌, leb_ℤ}
use ais_tracking_system.Prelude.Task.{Task, await, ◌>>=◌, ◌>>◌, resolve}
use ais_tracking_system.Contracts.{PositionEvent}
use ais_tracking_system.Contracts.Json.{Json, Fields, null, num, str, obj, end, field, property}
use ais_tracking_system.Pipeline.{Redis}

pub record SamplerState : Type 0 where
  pub last_emitted_at : String
  pub last_nav_status : Option Double

pub record SamplerConfig : Type 0 where
  pub moving_window_seconds : ℕ
  pub stationary_window_seconds : ℕ
  pub stationary_sog_threshold : Double
  pub state_ttl_seconds : ℕ

pub record JsonText : Type 0 where
  pub parse : String → Option Json
  pub stringify : Json → String

abbrev pub number_of : Option Json → Option Double
number_of (some (num d)) = some d
number_of _ = none

abbrev pub sampler_state : Fields → Option Json → Option SamplerState
sampler_state fields (some (str t)) =
    some (record {
      last_emitted_at = t;
      last_nav_status = number_of (property "lastNavStatus" fields);
    })
sampler_state fields _ = none

abbrev pub read_state : Option Json → Option SamplerState
read_state (some (obj fields)) = sampler_state fields (property "lastEmittedAt" fields)
read_state _ = none

-- `parseState`; the empty text is `!raw`.
unfoldable pub parse_state : JsonText → Option String → Option SamplerState
unfolding property
parse_state json none = none
parse_state json (some raw) = ite (str_discrete raw "") none (read_state (json.parse raw))

abbrev pub nav_json : Option Double → Json
nav_json none = null
nav_json (some d) = num d

abbrev pub state_json : SamplerState → Json
state_json s = obj (
    field "lastEmittedAt" (str s.last_emitted_at)
      (field "lastNavStatus" (nav_json s.last_nav_status) end))

abbrev pub nav_status_of : PositionEvent → Option Double
nav_status_of event = elim event.nav_status [ none ↦ none | some n ↦ some (of_nat n) ]

abbrev pub sampler_key : PositionEvent → String
sampler_key event = "sampler:" <> event.mmsi

abbrev pub emitted : PositionEvent → SamplerState
emitted event = record {
  last_emitted_at = event.occurred_at;
  last_nav_status = nav_status_of event;
}

-- `navStatus !== null && navStatus !== state.lastNavStatus`
unfoldable pub is_changed : Option Double → Option Double → Bool
is_changed none last = false
is_changed (some d) none = true
is_changed (some d) (some last) = not (eq_Double d last)

unfoldable pub window_ms : SamplerConfig → PositionEvent → ℕ
window_ms config event =
    if ltb_Double (get_or_else event.sog (record { negative = false; magnitude = 0 }))
      config.stationary_sog_threshold
    then config.stationary_window_seconds * 1000
    else config.moving_window_seconds * 1000

-- `elapsed >= windowMs`, which NaN is not.
unfoldable pub has_elapsed : ℕ → Option ℤ → Option ℤ → Bool
unfolding ◌-ℤ◌
has_elapsed window (some at) (some last) = leb_ℤ (pos window) (at -ℤ last)
has_elapsed window (some at) none = false
has_elapsed window none last = false

-- Whether the event is due, given the vessel's state.
unfoldable pub is_due :
    (String → Option ℤ) → SamplerConfig → Option SamplerState → PositionEvent → Bool
unfolding is_changed window_ms has_elapsed
is_due parse config none event = true
is_due parse config (some state) event =
    if is_changed (nav_status_of event) state.last_nav_status
    then true
    else has_elapsed (window_ms config event) (parse event.occurred_at)
        (parse state.last_emitted_at)

module _ {W : Type 0} (redis : Redis W) (json : JsonText) (config : SamplerConfig) where
  unfoldable pub write_state : String → SamplerState → Task W (Unit {0})
  write_state key state =
      redis.set_ex key (json.stringify (state_json state)) config.state_ttl_seconds

  unfoldable pub should_emit : (String → Option ℤ) → PositionEvent → Task W Bool
  unfolding write_state parse_state is_due
  should_emit parse event = do
    raw ← redis.get (sampler_key event)
    if is_due parse config (parse_state json raw) event
        then (write_state (sampler_key event) (emitted event) >> resolve true)
        else resolve false
