-- ===== src/Web/Vessels.antt =====
-- The client's store of vessels (web/src/store/vessels.ts): its state and its actions. The clock of
-- an action that reads it is an argument.
pub mod Actions
pub mod Distinct
use ais_tracking_system.Prelude.{ℕ, ◌*◌, String, Option, some, none, List, [], ◌∷◌}
use ais_tracking_system.Prelude.Int.{ℤ}
use ais_tracking_system.Prelude.StringMap.{StringMap}
use ais_tracking_system.Contracts.{PositionEvent, StaticEvent, VesselEnrichedEvent}
use ais_tracking_system.Contracts.Json.{Json}
use ais_tracking_system.Web.MergeReducer.{Vessel, SnapshotRow, DetailSanctions}
use ais_tracking_system.Web.MergeReducer.Apply.{
  apply_snapshot_rows, apply_detail_sanctions, apply_position, apply_static, apply_enriched,
  prune_stale_vessels,
}

-- `SNAPSHOT_RETENTION_MS`
abbrev pub snapshot_retention_ms : ℕ
snapshot_retention_ms = 24 * 60 * 60 * 1000

pub data WsStatus : Type 0 where
  idle connecting open_ reconnecting closed : WsStatus

pub record ApiErrorData : Type 0 where
  pub code : String
  pub message : String
  pub details : Option Json

pub record VesselsState : Type 0 where
  pub vessels : StringMap Vessel
  pub ws_status : WsStatus
  pub error : Option ApiErrorData

pub data Action : Type 0 where
  set_status : (s : WsStatus) → Action
  set_error : (e : Option ApiErrorData) → Action
  prune_stale : (now : ℤ) → Action
  snapshot : (rows : List SnapshotRow) (now : ℤ) → Action
  position : (ev : PositionEvent) → Action
  static : (ev : StaticEvent) → Action
  enriched : (ev : VesselEnrichedEvent) → Action
  detail_sanctions : (row : DetailSanctions) → Action

abbrev pub initial_state : VesselsState
initial_state = record { vessels = []; ws_status = idle; error = none }

module _ (parse : String → Option ℤ) where
  unfoldable pub act : VesselsState → Action → VesselsState
  act s (set_status status) = record s { ws_status = status }
  act s (set_error e) = record s { error = e }
  act s (prune_stale now) = record s {
    vessels = prune_stale_vessels parse s.vessels now snapshot_retention_ms;
  }
  act s (snapshot rows now) = record s {
    vessels =
        prune_stale_vessels parse (apply_snapshot_rows parse s.vessels rows) now
          snapshot_retention_ms;
  }
  act s (position ev) = record s { vessels = apply_position parse s.vessels ev }
  act s (static ev) = record s { vessels = apply_static parse s.vessels ev }
  act s (enriched ev) = record s { vessels = apply_enriched parse s.vessels ev }
  act s (detail_sanctions row) = record s { vessels = apply_detail_sanctions parse s.vessels row }

  unfoldable pub act_all : VesselsState → List Action → VesselsState
  unfolding act
  act_all s [] = s
  act_all s (a ∷ as_) = act_all (act s a) as_
