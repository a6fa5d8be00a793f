-- ===== src/Web/Sync.antt =====
-- The hook that keeps the store in step with the server (web/src/realtime/useVesselRealtimeSync.ts).
-- The calls of `fetchVessels` are answered by events, with the number of the request; the metrics of
-- the front end are left out.
pub mod Outdated
use Prim.Native.String.{String}
use ais_tracking_system.Prelude.{
  ℕ, zero, suc, ◌==◌, Bool, true, false, not, Option, none, some, List, [], ◌∷◌, ◌++◌,
  if◌then◌else◌,
}
use ais_tracking_system.Prelude.Int.{ℤ}
use ais_tracking_system.Contracts.{PositionEvent, StaticEvent, VesselEnrichedEvent}
use ais_tracking_system.Web.MergeReducer.{SnapshotRow}
use ais_tracking_system.Web.Vessels
use ais_tracking_system.Web.Vessels.{
  VesselsState, ApiErrorData, Action, set_status, set_error, prune_stale, snapshot, act, idle,
  open_,
}
use ais_tracking_system.Web.Client
use ais_tracking_system.Web.Client.{Signal, message, status, resync, WsClientStatus}

pub data ServerMessageParsed : Type 0 where
  position : PositionEvent → ServerMessageParsed
  static : StaticEvent → ServerMessageParsed
  enriched : VesselEnrichedEvent → ServerMessageParsed
  error : ApiErrorData → ServerMessageParsed

-- The number of the last request, the requests that were aborted, and the store.
pub record SyncState : Type 0 where
  pub request_id : ℕ
  pub aborted : List ℕ
  pub store : VesselsState

-- What a failed request throws: an abort, an error of the API, another `Error`, or anything else.
pub data FetchError : Type 0 where
  abort : FetchError
  api_error : ApiErrorData → FetchError
  other_error : String → FetchError
  unknown : FetchError

unfoldable pub store_status : WsClientStatus → Vessels.WsStatus
store_status WsClientStatus.connecting = Vessels.WsStatus.connecting
store_status WsClientStatus.open_ = Vessels.WsStatus.open_
store_status WsClientStatus.reconnecting = Vessels.WsStatus.reconnecting
store_status WsClientStatus.closed = Vessels.WsStatus.closed

module _ (parse : String → Option ℤ) where
  unfoldable pub dispatch_action : Action → SyncState → SyncState
  dispatch_action a s = record s { store = act parse s.store a }

  -- The request before is aborted; number 0 is no request.
  unfoldable pub run_fetch : SyncState → SyncState
  run_fetch s = record s { request_id = suc s.request_id; aborted = s.aborted ++ s.request_id ∷ [] }

  unfoldable pub fetch_resolved : ℕ → List SnapshotRow → ℤ → SyncState → SyncState
  fetch_resolved id rows now s =
      if not (id == s.request_id)
      then s
      else dispatch_action (set_error none) (dispatch_action (snapshot rows now) s)

  abbrev pub error_data : FetchError → Option ApiErrorData
  error_data abort = none
  error_data (api_error e) = some e
  error_data (other_error text) = some (record { code = "NETWORK"; message = text; details = none })
  error_data unknown = some (record { code = "NETWORK"; message = "network error"; details = none })

  unfoldable pub fetch_rejected : ℕ → FetchError → SyncState → SyncState
  fetch_rejected id e s = elim (error_data e) [
    | none ↦ s
    | some x ↦ if not (id == s.request_id) then s else dispatch_action (set_error (some x)) s
  ]

  unfoldable pub on_server_message : ServerMessageParsed → SyncState → SyncState
  on_server_message (position ev) s =
      dispatch_action (Action.position ev) (dispatch_action (set_error none) s)
  on_server_message (static ev) s =
      dispatch_action (Action.static ev) (dispatch_action (set_error none) s)
  on_server_message (enriched ev) s =
      dispatch_action (Action.enriched ev) (dispatch_action (set_error none) s)
  on_server_message (error e) s = dispatch_action (set_error (some e)) s

  -- The handlers that the client calls.
  unfoldable pub on_signal : Signal ServerMessageParsed → SyncState → SyncState
  on_signal (message m) s = on_server_message m s
  on_signal (status x) s = dispatch_action (set_status (store_status x)) s
  on_signal resync s = run_fetch s

  unfoldable pub on_prune_timer : ℤ → SyncState → SyncState
  on_prune_timer now s = dispatch_action (prune_stale now) s
