-- ===== src/Pipeline/Handle/Publish.antt =====
-- What the pipeline writes to the stream.
use ais_tracking_system.Prelude.{
  ◌≡◌, refl, ◌∙◌, ap, String, Bool, true, false, not, Option, none, some, List, ◌∷◌, ◌⊎◌, inl, inr,
  if◌then◌else◌,
}
use ais_tracking_system.Prelude.Task.{await, ◌>>=◌}
use ais_tracking_system.Contracts.{CanonicalEvent}
use ais_tracking_system.Pipeline.Dedup.{should_accept}
use ais_tracking_system.Pipeline.Handle.{
  DropReason, RawProviderMessage, Services, PipelineConfig, PipelineState, on_world, drop, sampled,
  duplicate, out_of_bbox, publish_traced, sample, check_land, handle_fresh, handle_event, handle,
  is_out_of_bbox, with_trace_id, trace_id, trace_id_of, geo_drop_reason, is_sampled_out, kind_of,
  mmsi_of, occurred_at_of, ais_events_stream, count_published,
}
use ais_tracking_system.Pipeline.Handle.Log.{
  IsStream, Adds, await-Adds, is_sampled_out_quiet, geo_drop_reason_quiet, trace_id_quiet,
  should_accept_quiet,
}

-- The event is what the normalizer makes of the message, with a trace id, and is not a position
-- outside the coverage.
abbrev pub IsTraced : {W : Type 0} → Services W → RawProviderMessage → W → CanonicalEvent → Type 0
IsTraced services raw w traced =
    (event : CanonicalEvent) × (id : String) × ((services.normalize raw w).0 ≡ some (some event))
    × (is_out_of_bbox event ≡ false)
    × (traced ≡ with_trace_id id event)

module _ {W : Type 0} (services : Services W) (config : PipelineConfig)
    (log : W → List CanonicalEvent) (laws : IsStream services log) where
  publish_traced-Adds :
      (Fits : CanonicalEvent → Type 0) (before : List CanonicalEvent) (traced : CanonicalEvent)
      (s : PipelineState W)
      → log s.world ≡ before
      → Fits traced
      → Adds log before Fits (log (publish_traced services config traced s).1.world)
  unfolding publish_traced
  publish_traced-Adds Fits before traced s q fits =
      counted (services.publish ais_events_stream traced s.world) (laws.publish traced s.world)
    where
      added :
          (after : List CanonicalEvent)
          → (after ≡ log s.world) ⊎ (after ≡ traced ∷ log s.world)
          → Adds log before Fits after
      added after (inl e) = inl (e ∙ q)
      added after (inr e) = inr (traced, e ∙ ap (λ l. traced ∷ l) q, fits)

      counted :
          (r : Option String × W)
          → (log r.1 ≡ log s.world) ⊎ (log r.1 ≡ traced ∷ log s.world)
          → Adds log before Fits (
              log
                (await
                  (r.0, record s { world = r.1 })
                  (λ id. count_published (kind_of traced))).1.world)
      counted (none, w) h = added (log w) h
      counted (some id, w) h = added (log w) h

  sample-Adds :
      (Fits : CanonicalEvent → Type 0) (before : List CanonicalEvent) (traced : CanonicalEvent)
      (s : PipelineState W)
      → log s.world ≡ before
      → Fits traced
      → Adds log before Fits (log (sample services config traced s).1.world)
  unfolding sample
  sample-Adds Fits before traced s q fits =
      await-Adds log before Fits s (is_sampled_out services config traced s.world) _
        (is_sampled_out_quiet services config log laws before traced s.world q)
        (λ out w e q'. either out w q')
    where
      either :
          (out : Bool) (w : W)
          → log w ≡ before
          → Adds log before Fits (
              log
                ((if out then drop sampled else publish_traced services config traced)
                  (record s { world = w })).1.world)
      either true w q' = inl q'
      either false w q' = publish_traced-Adds Fits before traced (record s { world = w }) q' fits

  check_land-Adds :
      (Fits : CanonicalEvent → Type 0) (before : List CanonicalEvent) (traced : CanonicalEvent)
      (o : Option DropReason) (s : PipelineState W)
      → log s.world ≡ before
      → Fits traced
      → Adds log before Fits (log (check_land services config traced o s).1.world)
  unfolding check_land
  check_land-Adds Fits before traced none s q fits = sample-Adds Fits before traced s q fits
  check_land-Adds Fits before traced (some reason) s q fits = inl q

  handle_fresh-Adds :
      (Fits : CanonicalEvent → Type 0) (before : List CanonicalEvent) (event : CanonicalEvent)
      (s : PipelineState W)
      → log s.world ≡ before
      → ((id : String) → is_out_of_bbox event ≡ false → Fits (with_trace_id id event))
      → Adds log before Fits (log (handle_fresh services config event s).1.world)
  unfolding handle_fresh
  handle_fresh-Adds Fits before event s q fits =
      await-Adds log before Fits s (trace_id services config (trace_id_of event) s.world) _
        (trace_id_quiet services config log laws before (trace_id_of event) s.world q)
        (λ id w e q'. either id (is_out_of_bbox event) refl w q')
    where
      either :
          (id : String) (out : Bool)
          → is_out_of_bbox event ≡ out
          → (w : W) → log w ≡ before
          → Adds log before Fits (
              log
                ((if out
                    then drop out_of_bbox
                    else (on_world (geo_drop_reason services config (with_trace_id id event))
                        >>= check_land services config (with_trace_id id event)))
                  (record s { world = w })).1.world)
      either id true out w q' = inl q'
      either id false inside w q' =
          await-Adds log before Fits (record s { world = w })
            (geo_drop_reason services config (with_trace_id id event) w) _
            (geo_drop_reason_quiet services config log laws before (with_trace_id id event) w q')
            (λ o w' e q''.
              check_land-Adds Fits before (with_trace_id id event) o (record s { world = w' }) q''
                (fits id inside))

  handle_event-Adds :
      (Fits : CanonicalEvent → Type 0) (before : List CanonicalEvent) (o : Option CanonicalEvent)
      (s : PipelineState W)
      → log s.world ≡ before
      → ((event : CanonicalEvent) (id : String)
          → o ≡ some event
          → is_out_of_bbox event ≡ false
          → Fits (with_trace_id id event))
      → Adds log before Fits (log (handle_event services config o s).1.world)
  unfolding handle_event
  handle_event-Adds Fits before none s q fits = inl q
  handle_event-Adds Fits before (some event) s q fits =
      await-Adds log before Fits s
        (should_accept services.redis config.dedup_ttl_seconds (mmsi_of event)
          (occurred_at_of event) s.world)
        _
        (should_accept_quiet services config log laws before (mmsi_of event) (occurred_at_of event)
          s.world q)
        (λ accept w e q'. either accept w q')
    where
      either :
          (accept : Bool) (w : W)
          → log w ≡ before
          → Adds log before Fits (
              log
                ((if not accept then drop duplicate else handle_fresh services config event)
                  (record s { world = w })).1.world)
      either true w q' =
          handle_fresh-Adds Fits before event (record s { world = w }) q'
            (λ id inside. fits event id refl inside)
      either false w q' = inl q'

  -- Handling a message leaves the stream as it is or adds one event to it: what the normalizer
  -- makes of that message, with a trace id, and, if it is a position, in a coverage box. This
  -- holds where the bus alone writes to the stream, and no more than the event that it is given.
  pub handle-Adds :
      (raw : RawProviderMessage) (s : PipelineState W)
      → Adds log
          (log s.world)
          (IsTraced services raw s.world)
          (log (handle services config raw s).1.world)
  unfolding handle
  handle-Adds raw s =
      await-Adds log (log s.world) (IsTraced services raw s.world) s
        (services.normalize raw s.world) _ (laws.normalize raw s.world)
        (λ o w e q.
          handle_event-Adds (IsTraced services raw s.world) (log s.world) o (record s { world = w })
            q (λ event id eo inside. (event, id, e ∙ ap some eo, inside, refl)))
