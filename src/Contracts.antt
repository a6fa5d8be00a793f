-- ===== src/Contracts.antt =====
-- The events that the components exchange (src/contracts/index.ts). The tags `schemaVersion` and
-- `kind` are constants, which the types stand for; a field that is null or absent is `none`, since
-- every reader takes both by `?? null`. Integers within bounds are ℕ, other numbers doubles.
pub mod Json
pub mod Samples
use ais_tracking_system.Prelude.{ℕ, String, List, Option}
use ais_tracking_system.Prelude.Double.{Double}

pub record PositionEvent : Type 0 where
  pub mmsi : String
  pub lat : Double
  pub lon : Double
  pub sog : Option Double
  pub cog : Option Double
  pub true_heading : Option ℕ
  pub nav_status : Option ℕ
  pub rate_of_turn : Option Double
  pub ship_name : Option String
  pub occurred_at : String
  pub provider : String
  pub ingested_at : String
  pub trace_id : Option String

pub record StaticEvent : Type 0 where
  pub mmsi : String
  pub imo : Option String
  pub name : Option String
  pub call_sign : Option String
  pub ship_type : Option ℕ
  pub dimension_to_bow : Option ℕ
  pub dimension_to_stern : Option ℕ
  pub dimension_to_port : Option ℕ
  pub dimension_to_starboard : Option ℕ
  pub destination : Option String
  pub occurred_at : String
  pub provider : String
  pub ingested_at : String
  pub trace_id : Option String

pub data CanonicalEvent : Type 0 where
  position : PositionEvent → CanonicalEvent
  static : StaticEvent → CanonicalEvent

pub data SourceEventKind : Type 0 where
  position_kind static_kind : SourceEventKind

pub record VesselPersistedEvent : Type 0 where
  pub vessel_id : String
  pub mmsi : String
  pub imo : Option String
  pub name : Option String
  pub source_event_kind : SourceEventKind
  pub persisted_at : String
  pub trace_id : Option String

pub data MatchMethod : Type 0 where
  imo mmsi name_candidate : MatchMethod

pub record SanctionMatch : Type 0 where
  pub entity_id : String
  pub source : String
  pub source_entity_id : String
  pub name : String
  pub match_method : MatchMethod
  pub aliases : List String
  pub flag : Option String
  pub listing_date : Option String
  pub programs : List String

pub data SanctionsStatus : Type 0 where
  clear candidate sanctioned : SanctionsStatus

pub record VesselEnrichedEvent : Type 0 where
  pub vessel_id : String
  pub mmsi : String
  pub status : SanctionsStatus
  pub matches : List SanctionMatch
  pub checked_at : String
  pub trace_id : Option String
