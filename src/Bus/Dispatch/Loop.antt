-- ===== src/Bus/Dispatch/Loop.antt =====
-- Where the loop over a reply stops.
use ais_tracking_system.Prelude.{◌≡◌, ap, sym, subst, String, List, [], ◌∷◌, ◌++◌}
use ais_tracking_system.Contracts.Json.{Json}
use ais_tracking_system.Bus.{Thrown, Outcome, returned, threw, Async, await, StreamRedis}
use ais_tracking_system.Bus.FailureHandler.{Texts, BusConfig}
use ais_tracking_system.Bus.Dispatch.{BusState, ConsumerLoop, data_field, dispatch, dispatch_all}
use ais_tracking_system.Bus.Dispatch.Refused.{IsUnacked, threw-dispatch_data}

module _ {W : Type 0} (redis : StreamRedis W) (texts : Texts) (parse : String → Outcome Json)
    (config : BusConfig) (loop : ConsumerLoop W) where
  -- The entries before one were dispatched, the dispatch of that one is the last thing done, and what
  -- stopped it is its acknowledgement.
  abbrev pub IsStopped : List (String × List String) → BusState W → Thrown → Type 0
  IsStopped entries s e =
      (first : List (String × List String)) × (rest : List (String × List String)) × (id : String)
      × (fields : List String) × (t : BusState W) × (entries ≡ first ++ (id, fields) ∷ rest)
      × (dispatch_all redis texts parse config loop first s ≡ (returned tt, t))
      × (dispatch_all redis texts parse config loop entries s
          ≡ (threw e, (dispatch redis texts parse config loop id fields t).1))
      × IsUnacked redis texts parse config loop id (data_field fields) t.world e

  threw-await :
      {A B : Type 0} (r : Outcome A × BusState W) (f : A → Async (BusState W) B) (e : Thrown)
      → r.0 ≡ threw e
      → await r f ≡ (threw e, r.1)
  threw-await (threw d, t) f e h = ap (λ o. (again d o, t)) h
    where
      again : {A B : Type 0} → Thrown → Outcome A → Outcome B
      again d (threw x) = threw x
      again d (returned a) = threw d
  threw-await (returned a, t) f e h = cc

  -- Where the entries before one have been dispatched and then the XACK of that one is rejected, be it
  -- an entry without data or one that has led to a dead letter, the rejection leaves the loop over the
  -- reply, and the entries after it are not dispatched.
  pub dispatch_all_stops :
      (first rest : List (String × List String)) (id : String) (fields : List String)
      (s t : BusState W) (e : Thrown)
      → dispatch_all redis texts parse config loop first s ≡ (returned tt, t)
      → IsUnacked redis texts parse config loop id (data_field fields) t.world e
      → dispatch_all redis texts parse config loop (first ++ (id, fields) ∷ rest) s
        ≡ (threw e, (dispatch redis texts parse config loop id fields t).1)
  unfolding dispatch_all dispatch
  dispatch_all_stops [] rest id fields s t e ok h =
      subst
        (λ u.
          await (dispatch redis texts parse config loop id fields u)
            (λ done. dispatch_all redis texts parse config loop rest)
          ≡ (threw e, (dispatch redis texts parse config loop id fields t).1))
        (sym (ap (λ r. r.1) ok))
        (threw-await (dispatch redis texts parse config loop id fields t) _ e
          (threw-dispatch_data redis texts parse config loop id (data_field fields) t e h))
  dispatch_all_stops ((id', fields') ∷ first) rest id fields s t e ok h =
      after (dispatch redis texts parse config loop id' fields' s) ok
        (λ u done. dispatch_all_stops first rest id fields u t e done h)
    where
      after :
          (r : Outcome (Unit {0}) × BusState W)
          → await r (λ done. dispatch_all redis texts parse config loop first) ≡ (returned tt, t)
          → ((u : BusState W)
              → dispatch_all redis texts parse config loop first u ≡ (returned tt, t)
              → dispatch_all redis texts parse config loop (first ++ (id, fields) ∷ rest) u
                ≡ (threw e, (dispatch redis texts parse config loop id fields t).1))
          → await r
              (λ done. dispatch_all redis texts parse config loop (first ++ (id, fields) ∷ rest))
            ≡ (threw e, (dispatch redis texts parse config loop id fields t).1)
      after (threw d, u) q k = cc
      after (returned done, u) q k = k u q
