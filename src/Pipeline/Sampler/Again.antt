-- ===== src/Pipeline/Sampler/Again.antt =====
-- What the sampler makes of the position after one that it has let through.
use ais_tracking_system.Prelude.{
  ℕ, ◌≡◌, ◌≢◌, refl, sym, ◌∙◌, ap, subst, ◌↔◌, String, Bool, true, false, Option, none, some, arith,
  if◌then◌else◌, if_neg, str_discrete, get_or_else, ◌<>◌,
}
use ais_tracking_system.Prelude.Int.{ℤ, pos, ◌+ℤ◌, ◌<ℤ◌, +ℤ_parts, -ℤ_parts}
use ais_tracking_system.Prelude.Double.{Double}
use ais_tracking_system.Prelude.Task.{Task, await, ◌>>◌, resolve}
use ais_tracking_system.Contracts.{PositionEvent}
use ais_tracking_system.Contracts.Json.{property}
use ais_tracking_system.Pipeline.{Redis}
use ais_tracking_system.Pipeline.Sampler.{
  SamplerState, SamplerConfig, JsonText, parse_state, read_state, state_json, nav_status_of,
  is_changed, window_ms, has_elapsed, sampler_key, emitted, is_due, write_state, should_emit,
}

-- A value that is set is read back, as long as its key does not expire.
abbrev pub IsStored : {W : Type 0} → Redis W → Type 0
IsStored {W = W} redis =
    (k v : String) (ttl : ℕ) (w : W)
    → (redis.set_ex k v ttl w).0 ≡ some tt
    → (redis.get k (redis.set_ex k v ttl w).1).0 ≡ some (some v)

-- `JSON.parse` undoes `JSON.stringify` on the state.
abbrev pub IsRoundTrip : JsonText → SamplerState → Type 0
IsRoundTrip json state =
    (json.stringify (state_json state) ≢ "")
    × (json.parse (json.stringify (state_json state)) ≡ some (state_json state))

read_state_json :
    (t : String) (o : Option Double)
    → read_state (some (state_json (record { last_emitted_at = t; last_nav_status = o })))
      ≡ some (record { last_emitted_at = t; last_nav_status = o })
unfolding property str_discrete
read_state_json t none = refl
read_state_json t (some d) = refl

parse_state-stringify :
    (json : JsonText) (state : SamplerState)
    → IsRoundTrip json state
    → parse_state json (some (json.stringify (state_json state))) ≡ some state
unfolding parse_state
parse_state-stringify json state h =
    rw (if_neg _ h.0, h.1) (read_state_json state.last_emitted_at state.last_nav_status)

not_elapsed_iff :
    (window : ℕ) (a b : ℤ) → (has_elapsed window (some b) (some a) ≡ false) ↔ (b <ℤ a +ℤ pos window)
unfolding has_elapsed
not_elapsed_iff window a b = (
  (λ h. ground (arith, +ℤ_parts a (pos window), -ℤ_parts b a)),
  (λ h. ground (arith, +ℤ_parts a (pos window), -ℤ_parts b a)),
)

not_due_iff :
    (parse : String → Option ℤ) (config : SamplerConfig) (state : SamplerState)
    (next : PositionEvent) (a b : ℤ)
    → parse state.last_emitted_at ≡ some a
    → parse next.occurred_at ≡ some b
    → (is_due parse config (some state) next ≡ false) ↔ (
        (is_changed (nav_status_of next) state.last_nav_status ≡ false)
        × (b <ℤ a +ℤ pos (window_ms config next)))
unfolding is_due
not_due_iff parse config state next a b ea eb =
    rw (ea, eb)
      (by_change (is_changed (nav_status_of next) state.last_nav_status)
        (not_elapsed_iff (window_ms config next) a b))
  where
    by_change :
        {P : Type 0} {late : Bool} (c : Bool)
        → (late ≡ false) ↔ P
        → ((if c then true else late) ≡ false) ↔ ((c ≡ false) × P)
    by_change true h = ((λ e. cc), (λ k. cc))
    by_change false h = ((λ e. (refl, h.0 e)), (λ k. h.1 k.1))

module _ {W : Type 0} (redis : Redis W) (json : JsonText) (config : SamplerConfig)
    (parse : String → Option ℤ) where
  -- What lets a position through has written the vessel's state last.
  emitted_writes :
      (event : PositionEvent) (w : W)
      → (should_emit redis json config parse event w).0 ≡ some true
      → (w' : W) × ((write_state redis json config (sampler_key event) (emitted event) w').0
          ≡ some tt)
        × ((should_emit redis json config parse event w).1
            ≡ (write_state redis json config (sampler_key event) (emitted event) w').1)
  unfolding should_emit
  emitted_writes event w e = read (redis.get (sampler_key event) w) e
    where
      write : Task W (Unit {0})
      write = write_state redis json config (sampler_key event) (emitted event)

      wrote :
          (w : W) (r : Option (Unit {0}) × W)
          → write w ≡ r
          → (await r (λ done. resolve true)).0 ≡ some true
          → (w' : W) × ((write w').0 ≡ some tt)
            × ((await r (λ done. resolve true)).1 ≡ (write w').1)
      wrote w (none, v) same e = cc
      wrote w (some done, v) same e = (w, ap (λ r. r.0) same, sym (ap (λ r. r.1) same))

      due :
          (w : W) (b : Bool)
          → ((if b then (write >> resolve true) else resolve false) w).0 ≡ some true
          → (w' : W) × ((write w').0 ≡ some tt)
            × (((if b then (write >> resolve true) else resolve false) w).1 ≡ (write w').1)
      due w true e = wrote w (write w) refl e
      due w false e = cc

      read :
          (r : Option (Option String) × W)
          → (await r (λ raw.
              if is_due parse config (parse_state json raw) event
              then (write >> resolve true)
              else resolve false)).0
            ≡ some true
          → (w' : W) × ((write w').0 ≡ some tt)
            × ((await r (λ raw.
                  if is_due parse config (parse_state json raw) event
                  then (write >> resolve true)
                  else resolve false)).1
                ≡ (write w').1)
      read (none, v) e = cc
      read (some raw, v) e = due v (is_due parse config (parse_state json raw) event) e

  -- A position is held back exactly if it is not due, by the state that is stored.
  held_back_iff :
      (next : PositionEvent) (w : W) (text : String) (state : SamplerState)
      → (redis.get (sampler_key next) w).0 ≡ some (some text)
      → parse_state json (some text) ≡ some state
      → ((should_emit redis json config parse next w).0 ≡ some false)
        ↔ (is_due parse config (some state) next ≡ false)
  unfolding should_emit
  held_back_iff next w text state found parsed = read (redis.get (sampler_key next) w) found
    where
      write : Task W (Unit {0})
      write = write_state redis json config (sampler_key next) (emitted next)

      wrote : (r : Option (Unit {0}) × W) → (await r (λ done. resolve true)).0 ≢ some false
      wrote (none, v) e = cc
      wrote (some done, v) e = cc

      due :
          (v : W) (b : Bool)
          → (((if b then (write >> resolve true) else resolve false) v).0 ≡ some false)
            ↔ (b ≡ false)
      due v true = ((λ e. absurd (wrote (write v) e)), (λ e. cc))
      due v false = ((λ e. refl), (λ e. refl))

      read :
          (r : Option (Option String) × W)
          → r.0 ≡ some (some text)
          → ((await r (λ raw.
                if is_due parse config (parse_state json raw) next
                then (write >> resolve true)
                else resolve false)).0
              ≡ some false)
            ↔ (is_due parse config (some state) next ≡ false)
      read (none, v) e = cc
      read (some raw, v) e =
          subst
            (λ o.
              ((if is_due parse config o next then (write >> resolve true) else resolve false) v).0
                ≡ some false
              ↔ (is_due parse config (some state) next ≡ false))
            (sym parsed
              ∙ ap (λ r. parse_state json r) (sym (ap (λ o. get_or_else o (some text)) e)))
            (due v (is_due parse config (some state) next))

  -- Where Redis and JSON keep what is written: after a vessel's position is let through, its next
  -- position is held back exactly if its status is not a new one and it comes less than the window
  -- of its speed after the other one.
  pub should_emit-again :
      (first next : PositionEvent) (w : W) (a b : ℤ)
      → IsStored redis
      → IsRoundTrip json (emitted first)
      → first.mmsi ≡ next.mmsi
      → parse first.occurred_at ≡ some a
      → parse next.occurred_at ≡ some b
      → (should_emit redis json config parse first w).0 ≡ some true
      → ((should_emit redis json config parse next
            (should_emit redis json config parse first w).1).0
          ≡ some false)
        ↔ ((is_changed (nav_status_of next) (nav_status_of first) ≡ false)
            × (b <ℤ a +ℤ pos (window_ms config next)))
  unfolding write_state
  should_emit-again first next w a b stored back same ea eb e =
      let (w', written, after) = emitted_writes first w e in
      let w1 = (should_emit redis json config parse first w).1 in
      let text = json.stringify (state_json (emitted first)) in
      let found =
        subst (λ k. (redis.get k w1).0 ≡ some (some text)) (ap (λ m. "sampler:" <> m) same)
          (subst (λ v. (redis.get (sampler_key first) v).0 ≡ some (some text)) (sym after)
            (stored (sampler_key first) text config.state_ttl_seconds w' written)) in
      let held =
        held_back_iff next w1 text (emitted first) found
          (parse_state-stringify json (emitted first) back) in
      let due = not_due_iff parse config (emitted first) next a b ea eb in
      (λ h. due.0 (held.0 h), λ h. held.1 (due.1 h))
