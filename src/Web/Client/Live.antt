-- ===== src/Web/Client/Live.antt =====
-- The states that the connection can reach.
use ais_tracking_system.Prelude.{
  ℕ, ◌≡◌, arith, true, false, ◌&&◌, ◌||◌, Option, none, some, is_some,
}
use ais_tracking_system.Web.Client.{
  WsClient, new_client, start_client, stop_client, connect_client, signal, subscribe, onopen,
  onmessage, onclose, reconnect,
}

-- A listener of the socket, the timer, or the call of `stop`; the call of `start` comes first.
pub data SocketEvent (M : Type 0) : Type 0 where
  opened lost : ℕ → SocketEvent M
  frame : Option M → SocketEvent M
  fired stopped : SocketEvent M

module _ {M : Type 0} (outage_ms : ℕ) (jitter : ℕ → ℕ) where
  unfoldable pub react : SocketEvent M → WsClient M → WsClient M
  react (opened now) c = onopen outage_ms now c
  react (lost now) c = onclose jitter now c
  react (frame m) c = onmessage m c
  react fired c = reconnect c
  react stopped c = stop_client c

-- A socket opens while it is there, and is lost then or after a stop; the timer fires while it is set.
abbrev pub IsPossible : {M : Type 0} → WsClient M → SocketEvent M → Type 0
IsPossible c (lost now) = is_some c.ws || c.closed_by_user ≡ true
IsPossible c (opened now) = is_some c.ws ≡ true
IsPossible c fired = is_some c.pending ≡ true
IsPossible c _ = Unit {0}

-- Never both a socket and a pending retry, one of the two until the user stops, neither afterwards.
pub record IsAlive {M : Type 0} (c : WsClient M) : Type 0 where
  pub one : is_some c.ws && is_some c.pending ≡ false
  pub running : c.closed_by_user ≡ false → is_some c.ws || is_some c.pending ≡ true
  pub ended : c.closed_by_user ≡ true → is_some c.ws || is_some c.pending ≡ false
  -- while a retry is pending, the time of the disconnection is known
  pub noted : is_some c.pending ≡ true → is_some c.disconnected_at ≡ true

module _ {M : Type 0} (outage_ms : ℕ) (jitter : ℕ → ℕ) where
  react-IsAlive :
      (e : SocketEvent M) (c : WsClient M)
      → IsPossible c e
      → IsAlive c
      → IsAlive (react outage_ms jitter e c)
  unfolding react onopen onclose onmessage reconnect stop_client connect_client signal subscribe
  react-IsAlive (opened now) c p h = ground arith
  react-IsAlive (lost now) c p h = ground arith
  react-IsAlive (frame none) c p h = h
  react-IsAlive (frame (some m)) c p h = ground arith
  react-IsAlive fired c p h = ground arith
  react-IsAlive stopped c p h = ground arith

  -- The states that possible events lead to, from the call of `start` on.
  pub data IsReached : WsClient M → Type 0 where
    begin : IsReached (start_client new_client)
    next :
        (c : WsClient M) (e : SocketEvent M)
        → IsReached c
        → IsPossible c e
        → IsReached (react outage_ms jitter e c)

  -- Whatever possible events the started client meets (a socket opens while it is there, and is lost
  -- then or after a stop, and the timer fires while it is set): it has a socket or a pending retry, and
  -- never both, until it is stopped, and neither afterwards; and while a retry is pending, the time of
  -- the disconnection is known.
  pub reached-IsAlive : (c : WsClient M) → IsReached c → IsAlive c
  unfolding start_client new_client connect_client signal
  reached-IsAlive c begin = ground arith
  reached-IsAlive c (next b e r p) = react-IsAlive e b p (reached-IsAlive b r)
