-- ===== src/Ingestion/Adapter.antt =====
-- The connection to AISStream (src/ingestion/aisstream/aisstream.adapter.ts, src/ingestion/backoff.ts).
-- A socket is the number of its creation; each listener and timer is an event. What the socket is
-- sent, and the texts of the log, are left out.
pub mod Connection
use Prim.Native.String.{String}
use ais_tracking_system.Prelude.{
  ℕ, suc, ◌+◌, ◌*◌, ◌^◌, min, ◌==◌, Bool, true, false, not, ◌&&◌, ◌||◌, Option, none, some, List,
  [], ◌∷◌, ◌++◌, is_some, if◌then◌else◌,
}
use ais_tracking_system.Contracts.Json.{Json}
use ais_tracking_system.Pipeline.Handle.{RawProviderMessage}
use ais_tracking_system.Ingestion.RawFilter.{
  RawFilterResult, accepted, non_vessel_mmsi, invalid, accept,
}

abbrev pub aisstream_provider_id : String
aisstream_provider_id = "aisstream"

-- The milliseconds before the jitter.
unfoldable pub backoff_ms : ℕ → ℕ
backoff_ms attempt = min 30000 (1000 * 2 ^ attempt)

-- `jitter` multiplies by the random factor and rounds.
unfoldable pub next_backoff_ms : (ℕ → ℕ) → ℕ → ℕ
next_backoff_ms jitter attempt = jitter (backoff_ms attempt)

-- The adapter: the fields of the class, the sockets made so far, the messages emitted and dropped,
-- and whether it has listeners.
pub record Adapter : Type 0 where
  pub socket : Option ℕ
  pub closing : Bool
  pub started : Bool
  pub started_at : Option String
  pub last_message_at : Option String
  pub reconnect_count : ℕ
  pub connect_attempt : ℕ
  pub reconnect_timer : Option ℕ
  pub api_key : Option String
  pub sockets_made : ℕ
  pub subscribed : List ℕ
  pub emitted : List RawProviderMessage
  pub dropped : List RawFilterResult
  pub listening : Bool

pub record ProviderHealth : Type 0 where
  pub provider_id : String
  pub connected : Bool
  pub last_message_at : Option String
  pub reconnect_count : ℕ
  pub started_at : Option String

unfoldable pub new_adapter : Adapter
new_adapter = record {
  socket = none;
  closing = false;
  started = false;
  started_at = none;
  last_message_at = none;
  reconnect_count = 0;
  connect_attempt = 0;
  reconnect_timer = none;
  api_key = none;
  sockets_made = 0;
  subscribed = [];
  emitted = [];
  dropped = [];
  listening = false;
}

unfoldable pub on_message_handler : Adapter → Adapter
on_message_handler s = record s { listening = true }

unfoldable pub connect : Adapter → Adapter
connect s =
    if s.closing || not (is_some s.api_key)
    then s
    else record s { socket = some s.sockets_made; sockets_made = suc s.sockets_made }

-- `!apiKey`
abbrev pub filled : Option String → Option String
filled none = none
filled (some String.[]) = none
filled (some (String.◌∷◌ c k)) = some (String.◌∷◌ c k)

abbrev pub start_with : Option String → String → Adapter → Option Adapter
start_with none now s = none
start_with (some api_key) now s =
    some (connect (record s { api_key = some api_key; started = true; started_at = some now }))

-- `none` is the exception for a missing key.
unfoldable pub start_adapter : Option String → String → Adapter → Option Adapter
start_adapter config_key now s = if s.started then some s else start_with (filled config_key) now s

unfoldable pub stop : Adapter → Adapter
stop s = record s { closing = true; reconnect_timer = none; socket = none; listening = false }

-- `is_open` tells of a socket's ready state.
unfoldable pub health : (ℕ → Bool) → Adapter → ProviderHealth
health is_open s = record {
  provider_id = aisstream_provider_id;
  connected = elim s.socket [ none ↦ false | some k ↦ is_open k ];
  last_message_at = s.last_message_at;
  reconnect_count = s.reconnect_count;
  started_at = s.started_at;
}

unfoldable pub schedule_reconnect : (ℕ → ℕ) → Adapter → Adapter
schedule_reconnect jitter s = if s.closing then s else record s {
  reconnect_count = suc s.reconnect_count;
  connect_attempt = suc s.connect_attempt;
  reconnect_timer = some (next_backoff_ms jitter s.connect_attempt);
}

unfoldable pub on_open : ℕ → Adapter → Adapter
on_open k s = record s { subscribed = s.subscribed ++ k ∷ [] }

unfoldable pub drop_counter : RawFilterResult → Adapter → Adapter
drop_counter reason s = record s { dropped = s.dropped ++ reason ∷ [] }

-- The emitter calls the listeners that there are.
unfoldable pub emit : RawProviderMessage → Adapter → Adapter
emit msg s = if s.listening then record s { emitted = s.emitted ++ msg ∷ [] } else s

abbrev pub judged : RawFilterResult → RawProviderMessage → Adapter → Adapter
judged accepted msg s = emit msg s
judged non_vessel_mmsi msg s = drop_counter non_vessel_mmsi s
judged invalid msg s = drop_counter invalid s

-- A frame, as `JSON.parse` reads it: `none` where it throws.
unfoldable pub on_frame : (Json → String) → Option Json → String → Adapter → Adapter
on_frame to_text none now s = drop_counter invalid s
on_frame to_text (some payload) now s =
    let msg : RawProviderMessage = record {
      provider = aisstream_provider_id;
      received_at = now;
      payload = payload;
    } in
    judged (accept to_text (some payload)) msg
      (record s { last_message_at = some now; connect_attempt = 0 })

unfoldable pub on_close : (ℕ → ℕ) → Adapter → Adapter
on_close jitter s =
    let closed = record s { socket = none } in
    if s.closing then closed else schedule_reconnect jitter closed

unfoldable pub on_timer : Adapter → Adapter
on_timer s = connect (record s { reconnect_timer = none })

pub data AdapterEvent : Type 0 where
  starts : Option String → String → AdapterEvent
  listens stops closes errs fires : AdapterEvent
  opens : ℕ → AdapterEvent
  receives : Option Json → String → AdapterEvent

-- An exception of `start_adapter` leaves the adapter as it is.
abbrev pub or_same : Option Adapter → Adapter → Adapter
or_same none s = s
or_same (some t) s = t

module _ (to_text : Json → String) (jitter : ℕ → ℕ) where
  unfoldable pub adapter_step : AdapterEvent → Adapter → Adapter
  adapter_step (starts config_key now) s = or_same (start_adapter config_key now s) s
  adapter_step listens s = on_message_handler s
  adapter_step stops s = stop s
  adapter_step closes s = on_close jitter s
  adapter_step errs s = s
  adapter_step fires s = on_timer s
  adapter_step (opens k) s = on_open k s
  adapter_step (receives payload now) s = on_frame to_text payload now s
