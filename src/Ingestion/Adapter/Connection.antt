-- ===== src/Ingestion/Adapter/Connection.antt =====
-- The states that the adapter can reach.
use Prim.Native.String.{String}
use ais_tracking_system.Prelude.{
  ℕ, suc, ◌≤◌, ◌≡◌, arith, true, false, ◌&&◌, ◌||◌, Option, none, some, is_some,
}
use ais_tracking_system.Contracts.Json.{Json}
use ais_tracking_system.Pipeline.Handle.{RawProviderMessage}
use ais_tracking_system.Ingestion.RawFilter.{
  RawFilterResult, accepted, non_vessel_mmsi, invalid, accept,
}
use ais_tracking_system.Ingestion.Adapter.{
  Adapter, AdapterEvent, starts, listens, stops, closes, errs, fires, opens, receives, new_adapter,
  connect, filled, start_with, start_adapter, stop, schedule_reconnect, on_open, on_message_handler,
  drop_counter, emit, judged, on_frame, on_close, on_timer, adapter_step, or_same,
}

-- A socket closes while it is there or after a stop, and a timer fires while it is set.
abbrev pub IsPossible : Adapter → AdapterEvent → Type 0
IsPossible s closes = is_some s.socket || s.closing ≡ true
IsPossible s fires = is_some s.reconnect_timer ≡ true
IsPossible s _ = Unit {0}

-- Never both a socket and a timer; one of the two while the adapter runs; neither once it is stopped or
-- before it starts; and every socket but the first has its scheduled reconnect.
pub record IsLive (s : Adapter) : Type 0 where
  pub one : is_some s.socket && is_some s.reconnect_timer ≡ false
  pub running :
      s.started ≡ true → s.closing ≡ false → is_some s.socket || is_some s.reconnect_timer ≡ true
  pub stopped : s.closing ≡ true → is_some s.socket || is_some s.reconnect_timer ≡ false
  pub fresh : s.started ≡ false → is_some s.socket || is_some s.reconnect_timer ≡ false
  pub keyed : is_some s.api_key ≡ s.started
  pub first : s.started ≡ false → s.sockets_made ≡ 0
  pub made : s.sockets_made ≤ suc s.reconnect_count
  pub waiting : is_some s.reconnect_timer ≡ true → s.sockets_made ≤ s.reconnect_count

judged-IsLive :
    (r : RawFilterResult) (msg : RawProviderMessage) (s : Adapter)
    → IsLive s
    → IsLive (judged r msg s)
unfolding emit drop_counter
judged-IsLive accepted msg s h = ground arith
judged-IsLive non_vessel_mmsi msg s h = ground arith
judged-IsLive invalid msg s h = ground arith

start-IsLive :
    (key : Option String) (now : String) (s : Adapter)
    → IsLive s
    → s.started ≡ false
    → IsLive (or_same (start_with key now s) s)
unfolding connect
start-IsLive none now s h n = h
start-IsLive (some key) now s h n = ground arith

step-IsLive :
    (to_text : Json → String) (jitter : ℕ → ℕ) (e : AdapterEvent) (s : Adapter)
    → IsPossible s e
    → IsLive s
    → IsLive (adapter_step to_text jitter e s)
unfolding adapter_step start_adapter stop schedule_reconnect on_open on_message_handler on_frame
    on_close on_timer connect drop_counter
step-IsLive to_text jitter (starts key now) s p h =
    ground (arith, start-IsLive (filled key) now s h)
step-IsLive to_text jitter listens s p h = ground arith
step-IsLive to_text jitter stops s p h = ground arith
step-IsLive to_text jitter closes s p h = ground arith
step-IsLive to_text jitter errs s p h = h
step-IsLive to_text jitter fires s p h = ground arith
step-IsLive to_text jitter (opens k) s p h = ground arith
step-IsLive to_text jitter (receives none now) s p h = ground arith
step-IsLive to_text jitter (receives (some payload) now) s p h =
    judged-IsLive (accept to_text (some payload)) _ _ (record {
      one = h.one;
      running = h.running;
      stopped = h.stopped;
      fresh = h.fresh;
      keyed = h.keyed;
      first = h.first;
      made = h.made;
      waiting = h.waiting;
    })

-- The states that possible events lead to.
module _ (to_text : Json → String) (jitter : ℕ → ℕ) where
  pub data IsReached : Adapter → Type 0 where
    begin : IsReached new_adapter
    next :
        (s : Adapter) (e : AdapterEvent)
        → IsReached s
        → IsPossible s e
        → IsReached (adapter_step to_text jitter e s)

  -- Whatever happens to the adapter, from its creation on: it never has both a socket and a pending
  -- reconnect; while it is started and not stopped it has one of the two, so it never stays
  -- disconnected; before and after it has neither; and it makes one socket more than it has
  -- reconnects at most.
  pub reached-IsLive : (s : Adapter) → IsReached s → IsLive s
  unfolding new_adapter
  reached-IsLive s begin = ground arith
  reached-IsLive s (next t e r p) = step-IsLive to_text jitter e t p (reached-IsLive t r)
