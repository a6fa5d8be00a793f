-- ===== src/Pipeline/Handle/Accounts.antt =====
-- How the pipeline accounts for the messages that it receives.
use ais_tracking_system.Prelude.{
  ℕ, suc, ◌+◌, ◌≡◌, refl, String, Bool, true, false, not, Option, none, some, List, [], ◌∷◌, length,
  arith, if◌then◌else◌, ap,
}
use ais_tracking_system.Prelude.Task.{Task, await, ◌>>=◌}
use ais_tracking_system.Contracts.{CanonicalEvent}
use ais_tracking_system.Pipeline.Dedup.{should_accept}
use ais_tracking_system.Pipeline.Handle.{
  DropReason, RawProviderMessage, Services, PipelineConfig, PipelineState, on_world, drop, sampled,
  invalid, duplicate, out_of_bbox, publish_traced, sample, check_land, handle_fresh, handle_event,
  handle, logged, on_message, on_messages, is_out_of_bbox, with_trace_id, trace_id, trace_id_of,
  geo_drop_reason, is_sampled_out, mmsi_of, occurred_at_of,
}

abbrev pub settled : Option (Unit {0}) → ℕ
settled none = 0
settled (some done) = 1

module _ {W : Type 0} where
  -- The received messages are those dropped, those published and those that failed.
  abbrev pub IsAccounted : PipelineState W → Type 0
  IsAccounted s = length s.received ≡ length s.dropped + length s.published + s.errors

  -- What resolves has counted one message, what is rejected none.
  abbrev pub Settles : PipelineState W → Option (Unit {0}) × PipelineState W → Type 0
  Settles s (o, s') =
      (s'.received ≡ s.received)
      × (s'.errors ≡ s.errors)
      × (length s'.dropped + length s'.published
          ≡ settled o + length s.dropped + length s.published)

  drop-Settles : (reason : DropReason) (s : PipelineState W) → Settles s (drop reason s)
  drop-Settles reason s = (refl, refl, omega arith)

  await-Settles :
      {A : Type 0} (s : PipelineState W) (r : Option A × W)
      (f : A → Task (PipelineState W) (Unit {0}))
      → ((a : A) (w : W) → Settles s (f a (record s { world = w })))
      → Settles s (await (r.0, record s { world = r.1 }) f)
  await-Settles s (none, w) f h = (refl, refl, omega arith)
  await-Settles s (some a, w) f h = h a w

  if-Settles :
      (s : PipelineState W) (b : Bool) (m n : Option (Unit {0}) × PipelineState W)
      → Settles s m
      → Settles s n
      → Settles s (if b then m else n)
  if-Settles s true m n h k = h
  if-Settles s false m n h k = k

module _ {W : Type 0} (services : Services W) (config : PipelineConfig) where
  publish_traced-Settles :
      (traced : CanonicalEvent) (s : PipelineState W)
      → Settles s (publish_traced services config traced s)
  unfolding publish_traced
  publish_traced-Settles traced s =
      await-Settles s (services.publish "ais.events.v1" traced s.world) _
        (λ id w. (refl, refl, omega arith))

  sample-Settles :
      (traced : CanonicalEvent) (s : PipelineState W) → Settles s (sample services config traced s)
  unfolding sample
  sample-Settles traced s =
      await-Settles s (is_sampled_out services config traced s.world) _ (λ out w. either out w)
    where
      either :
          (out : Bool) (w : W)
          → Settles s (
              (if out then drop sampled else publish_traced services config traced)
                (record s { world = w }))
      either true w = drop-Settles sampled (record s { world = w })
      either false w = publish_traced-Settles traced (record s { world = w })

  check_land-Settles :
      (traced : CanonicalEvent) (o : Option DropReason) (s : PipelineState W)
      → Settles s (check_land services config traced o s)
  unfolding check_land
  check_land-Settles traced none s = sample-Settles traced s
  check_land-Settles traced (some reason) s = drop-Settles reason s

  handle_fresh-Settles :
      (event : CanonicalEvent) (s : PipelineState W)
      → Settles s (handle_fresh services config event s)
  unfolding handle_fresh
  handle_fresh-Settles event s =
      await-Settles s (trace_id services config (trace_id_of event) s.world) _
        (λ id w. either id (is_out_of_bbox event) w)
    where
      either :
          (id : String) (out : Bool) (w : W)
          → Settles s (
              (if out
                  then drop out_of_bbox
                  else (on_world (geo_drop_reason services config (with_trace_id id event))
                      >>= check_land services config (with_trace_id id event)))
                (record s { world = w }))
      either id true w = drop-Settles out_of_bbox (record s { world = w })
      either id false w =
          await-Settles (record s { world = w })
            (geo_drop_reason services config (with_trace_id id event) w) _
            (λ o w'. check_land-Settles (with_trace_id id event) o (record s { world = w' }))

  handle_event-Settles :
      (o : Option CanonicalEvent) (s : PipelineState W)
      → Settles s (handle_event services config o s)
  unfolding handle_event
  handle_event-Settles none s = drop-Settles invalid s
  handle_event-Settles (some event) s =
      await-Settles s
        (should_accept services.redis config.dedup_ttl_seconds (mmsi_of event)
          (occurred_at_of event) s.world)
        _ (λ accept w. either accept w)
    where
      either :
          (accept : Bool) (w : W)
          → Settles s (
              (if not accept then drop duplicate else handle_fresh services config event)
                (record s { world = w }))
      either true w = handle_fresh-Settles event (record s { world = w })
      either false w = drop-Settles duplicate (record s { world = w })

  pub handle-Settles :
      (raw : RawProviderMessage) (s : PipelineState W) → Settles s (handle services config raw s)
  unfolding handle
  handle-Settles raw s =
      await-Settles s (services.normalize raw s.world) _
        (λ o w. handle_event-Settles o (record s { world = w }))

  logged-IsAccounted :
      (s : PipelineState W) (r : Option (Unit {0}) × PipelineState W)
      → length s.received ≡ suc (length s.dropped + length s.published + s.errors)
      → Settles s r
      → IsAccounted (logged r)
  logged-IsAccounted s (none, s') h k = rw (k.0, h, k.1) (omega (arith, k.2))
  logged-IsAccounted s (some done, s') h k = rw (k.0, h, k.1) (omega (arith, k.2))

  on_message-IsAccounted :
      (s : PipelineState W) (provider : String) (raw : RawProviderMessage)
      → IsAccounted s
      → IsAccounted (on_message services config s provider raw)
  unfolding on_message
  on_message-IsAccounted s provider raw h =
      logged-IsAccounted (record s { received = provider ∷ s.received })
        (handle services config raw (record s { received = provider ∷ s.received })) (ap suc h)
        (handle-Settles raw (record s { received = provider ∷ s.received }))

  -- Whatever its services answer, and whichever of their calls are rejected, the pipeline counts
  -- each received message exactly once: as dropped, as published or as failed.
  pub on_messages-IsAccounted :
      (s : PipelineState W) (messages : List (String × RawProviderMessage))
      → IsAccounted s
      → IsAccounted (on_messages services config s messages)
  unfolding on_messages
  on_messages-IsAccounted s [] h = h
  on_messages-IsAccounted s ((provider, raw) ∷ messages) h =
      on_messages-IsAccounted (on_message services config s provider raw) messages
        (on_message-IsAccounted s provider raw h)
