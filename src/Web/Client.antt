-- ===== src/Web/Client.antt =====
-- The client's connection (web/src/lib/wsClient.ts, web/src/lib/backoff.ts). A socket is the number of
-- its creation, and each of its listeners, the timer and the two methods is an event. A frame is what
-- JSON and the schema make of it.
pub mod Live
use Prim.Native.String.{String}
use ais_tracking_system.Prelude.{
  ℕ, zero, suc, ◌+◌, ◌==◌, Bool, true, false, not, Option, none, some, List, [], ◌∷◌, ◌++◌, ltb,
  get_or_else, if◌then◌else◌,
}

pub data WsClientStatus : Type 0 where
  connecting open_ reconnecting closed : WsClientStatus

-- A call of a handler.
pub data Signal (M : Type 0) : Type 0 where
  message : M → Signal M
  status : WsClientStatus → Signal M
  resync : Signal M

-- `pending` tells whether the timer is set; the field that holds it is only cleared by `stop`.
pub record WsClient (M : Type 0) : Type 0 where
  pub ws : Option ℕ
  pub attempt : ℕ
  pub received_since_open : Bool
  pub disconnected_at : Option ℕ
  pub pending : Option ℕ
  pub closed_by_user : Bool
  pub sockets_made : ℕ
  pub subscribed : List ℕ
  pub signals : List (Signal M)

abbrev pub default_outage_resync_ms : ℕ
default_outage_resync_ms = 5000

abbrev pub cap_ms : ℕ
cap_ms = 30000

abbrev pub series : List ℕ
series = 1000 ∷ 2000 ∷ 4000 ∷ 8000 ∷ 16000 ∷ []

abbrev pub nth : List ℕ → ℕ → Option ℕ
nth [] n = none
nth (x ∷ xs) zero = some x
nth (x ∷ xs) (suc n) = nth xs n

-- The step of the series before the jitter.
unfoldable pub series_ms : ℕ → ℕ
series_ms attempt = get_or_else (nth series attempt) cap_ms

-- `jitter` adds the random offset and rounds.
unfoldable pub retry_delay_ms : (ℕ → ℕ) → ℕ → ℕ
retry_delay_ms jitter attempt = jitter (series_ms attempt)

unfoldable pub new_client : {M : Type 0} → WsClient M
new_client = record {
  ws = none;
  attempt = 0;
  received_since_open = false;
  disconnected_at = none;
  pending = none;
  closed_by_user = false;
  sockets_made = 0;
  subscribed = [];
  signals = [];
}

-- The outage is longer than the limit.
unfoldable pub is_outage : ℕ → ℕ → Option ℕ → Bool
is_outage outage_ms now none = false
is_outage outage_ms now (some at) = ltb (at + outage_ms) now

abbrev pub or_now : Option ℕ → ℕ → ℕ
or_now none now = now
or_now (some at) now = at

module _ {M : Type 0} where
  unfoldable pub signal : Signal M → WsClient M → WsClient M
  signal x c = record c { signals = c.signals ++ x ∷ [] }

  unfoldable pub connect_client : WsClient M → WsClient M
  connect_client c =
      signal (status (if c.attempt == 0 then connecting else reconnecting)) (record c {
        ws = some c.sockets_made;
        sockets_made = suc c.sockets_made;
        received_since_open = false;
      })

  unfoldable pub start_client : WsClient M → WsClient M
  start_client c = connect_client (record c { closed_by_user = false })

  unfoldable pub stop_client : WsClient M → WsClient M
  stop_client c =
      signal (status closed) (record c { closed_by_user = true; pending = none; ws = none })

  -- `send` of the subscription, on the socket that is there and open.
  unfoldable pub subscribe : WsClient M → WsClient M
  subscribe c = elim c.ws [ none ↦ c | some k ↦ record c { subscribed = c.subscribed ++ k ∷ [] } ]

  unfoldable pub onopen : ℕ → ℕ → WsClient M → WsClient M
  onopen outage_ms now c =
      let subscribed = subscribe c in
      let told =
        if is_outage outage_ms now subscribed.disconnected_at
        then signal resync subscribed
        else subscribed in
      signal (status open_) (record told { disconnected_at = none })

  -- `none` is a frame that is no valid message.
  unfoldable pub onmessage : Option M → WsClient M → WsClient M
  onmessage none c = c
  onmessage (some m) c = signal (message m) (
      if not c.received_since_open then record c { received_since_open = true; attempt = 0 } else c)

  unfoldable pub onclose : (ℕ → ℕ) → ℕ → WsClient M → WsClient M
  onclose jitter now c =
      let lost = record c { ws = none; disconnected_at = some (or_now c.disconnected_at now) } in
      if lost.closed_by_user
      then lost
      else record (signal (status reconnecting) (record lost { attempt = suc lost.attempt })) {
        pending = some (retry_delay_ms jitter lost.attempt);
      }

  -- The timer fires.
  unfoldable pub reconnect : WsClient M → WsClient M
  reconnect c = connect_client (record c { pending = none })
