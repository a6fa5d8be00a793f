-- ===== src/Contracts/Samples.antt =====
-- Events for the tests.
use ais_tracking_system.Prelude.{String, false, some, none}
use ais_tracking_system.Prelude.Double.{Double}
use ais_tracking_system.Contracts.{PositionEvent, StaticEvent}

abbrev pub zero_degrees : Double
zero_degrees = record { negative = false; magnitude = 0 }

-- A vessel's position at a given time.
abbrev pub seen : String → String → PositionEvent
seen mmsi time = record {
  mmsi = mmsi;
  lat = zero_degrees;
  lon = zero_degrees;
  sog = none;
  cog = none;
  true_heading = none;
  nav_status = none;
  rate_of_turn = none;
  ship_name = none;
  occurred_at = time;
  provider = "aisstream";
  ingested_at = time;
  trace_id = none;
}

abbrev pub profile : String → StaticEvent
profile mmsi = record {
  mmsi = mmsi;
  imo = none;
  name = some "ALPHA";
  call_sign = none;
  ship_type = none;
  dimension_to_bow = none;
  dimension_to_stern = none;
  dimension_to_port = none;
  dimension_to_starboard = none;
  destination = none;
  occurred_at = "t";
  provider = "aisstream";
  ingested_at = "t";
  trace_id = none;
}
