-- ===== src/Pipeline/Handle/Log.antt =====
-- Which calls of the pipeline leave the stream alone.
use ais_tracking_system.Prelude.{
  ℕ, ◌≡◌, refl, ◌∙◌, String, Bool, true, false, Option, none, some, List, ◌∷◌, ◌⊎◌, inl,
  if◌then◌else◌,
}
use ais_tracking_system.Prelude.Task.{Task, await, ◌>>◌, resolve}
use ais_tracking_system.Contracts.{CanonicalEvent, PositionEvent, position, static}
use ais_tracking_system.Pipeline.Dedup.{should_accept}
use ais_tracking_system.Pipeline.Sampler.{
  should_emit, is_due, parse_state, write_state, sampler_key, emitted,
}
use ais_tracking_system.Pipeline.Handle.{
  RawProviderMessage, Services, PipelineConfig, PipelineState, trace_id, geo_drop_reason,
  is_sampled_out, ais_events_stream,
}

-- Of the services, the bus alone writes to the stream, and then the event that it is given. A call
-- that is rejected may have written it all the same.
pub record IsStream {W : Type 0} (services : Services W) (log : W → List CanonicalEvent)
    : Type 0 where
  pub get : (k : String) (w : W) → log (services.redis.get k w).1 ≡ log w
  pub set_ex : (k v : String) (ttl : ℕ) (w : W) → log (services.redis.set_ex k v ttl w).1 ≡ log w
  pub set_nx_ex :
      (k v : String) (ttl : ℕ) (w : W) → log (services.redis.set_nx_ex k v ttl w).1 ≡ log w
  pub normalize : (raw : RawProviderMessage) (w : W) → log (services.normalize raw w).1 ≡ log w
  pub random_uuid : (w : W) → log (services.random_uuid w).1 ≡ log w
  pub validate : (e : PositionEvent) (w : W) → log (services.validate_position e w).1 ≡ log w
  pub publish :
      (e : CanonicalEvent) (w : W)
      → (log (services.publish ais_events_stream e w).1 ≡ log w)
        ⊎ (log (services.publish ais_events_stream e w).1 ≡ e ∷ log w)

module _ {W : Type 0} (log : W → List CanonicalEvent) (before : List CanonicalEvent) where
  -- The log is as before, or has one more event, which is fit.
  abbrev pub Adds : (CanonicalEvent → Type 0) → List CanonicalEvent → Type 0
  Adds Fits after = (after ≡ before) ⊎ ((e : CanonicalEvent) × (after ≡ e ∷ before) × Fits e)

  pub quiet-await :
      {A B : Type 0} (r : Option A × W) (f : A → Task W B)
      → log r.1 ≡ before
      → ((a : A) (w : W) → log w ≡ before → log (f a w).1 ≡ before)
      → log (await r f).1 ≡ before
  quiet-await (none, w) f q h = q
  quiet-await (some a, w) f q h = h a w q

  pub await-Adds :
      {A : Type 0} (Fits : CanonicalEvent → Type 0) (s : PipelineState W) (r : Option A × W)
      (f : A → Task (PipelineState W) (Unit {0}))
      → log r.1 ≡ before
      → ((a : A) (w : W)
          → r.0 ≡ some a
          → log w ≡ before
          → Adds Fits (log (f a (record s { world = w })).1.world))
      → Adds Fits (log (await (r.0, record s { world = r.1 }) f).1.world)
  await-Adds Fits s (none, w) f q h = inl q
  await-Adds Fits s (some a, w) f q h = h a w refl q

module _ {W : Type 0} (services : Services W) (config : PipelineConfig)
    (log : W → List CanonicalEvent) (laws : IsStream services log)
    (before : List CanonicalEvent) where
  pub should_accept_quiet :
      (mmsi t : String) (w : W)
      → log w ≡ before
      → log (should_accept services.redis config.dedup_ttl_seconds mmsi t w).1 ≡ before
  unfolding should_accept
  should_accept_quiet mmsi t w q =
      quiet-await log before _ _ (laws.set_nx_ex _ _ _ w ∙ q) (λ reply w' q'. q')

  should_emit_quiet :
      (e : PositionEvent) (w : W)
      → log w ≡ before
      → log (should_emit services.redis services.json config.sampler services.parse_date e w).1
        ≡ before
  unfolding should_emit write_state
  should_emit_quiet e w q = quiet-await log before _ _ (laws.get _ w ∙ q) (λ raw w' q'.
      either w' q' (is_due services.parse_date config.sampler (parse_state services.json raw) e))
    where
      either :
          (w : W)
          → log w ≡ before
          → (due : Bool)
          → log
              ((if due
                  then (write_state services.redis services.json config.sampler
                        (sampler_key e)
                        (emitted e)
                      >> resolve true)
                  else resolve false)
                w).1
            ≡ before
      either w q true = quiet-await log before _ _ (laws.set_ex _ _ _ w ∙ q) (λ done w' q'. q')
      either w q false = q

  pub is_sampled_out_quiet :
      (e : CanonicalEvent) (w : W)
      → log w ≡ before
      → log (is_sampled_out services config e w).1 ≡ before
  is_sampled_out_quiet (position e) w q =
      quiet-await log before _ _ (should_emit_quiet e w q) (λ emit w' q'. q')
  is_sampled_out_quiet (static e) w q = q

  pub geo_drop_reason_quiet :
      (e : CanonicalEvent) (w : W)
      → log w ≡ before
      → log (geo_drop_reason services config e w).1 ≡ before
  geo_drop_reason_quiet (position e) w q =
      quiet-await log before _ _ (laws.validate e w ∙ q) (λ result w' q'. q')
  geo_drop_reason_quiet (static e) w q = q

  pub trace_id_quiet :
      (o : Option String) (w : W) → log w ≡ before → log (trace_id services config o w).1 ≡ before
  trace_id_quiet none w q = laws.random_uuid w ∙ q
  trace_id_quiet (some id) w q = q
