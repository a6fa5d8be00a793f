-- ===== src/Pipeline/Handle/Stream.antt =====
-- What the stream holds after any messages.
use ais_tracking_system.Prelude.{
  ℕ, ◌+◌, ◌≤◌, ◌≡◌, refl, String, true, false, Option, none, some, List, [], ◌∷◌, inl, inr, arith,
  All, is_some, length,
}
use ais_tracking_system.Contracts.{CanonicalEvent, position, static}
use ais_tracking_system.Pipeline.Handle.{
  RawProviderMessage, Services, PipelineConfig, PipelineState, handle, logged, on_message,
  on_messages, is_out_of_bbox, with_trace_id, trace_id_of,
}
use ais_tracking_system.Pipeline.Handle.Log.{IsStream, Adds}
use ais_tracking_system.Pipeline.Handle.Publish.{IsTraced, handle-Adds}

-- The event has a trace id and, if it is a position, is in a coverage box.
abbrev pub IsCovered : CanonicalEvent → Type 0
IsCovered e = (is_out_of_bbox e ≡ false) × (is_some (trace_id_of e) ≡ true)

traced-IsCovered :
    (id : String) (e : CanonicalEvent) → is_out_of_bbox e ≡ false → IsCovered (with_trace_id id e)
traced-IsCovered id (position e) inside = (inside, refl)
traced-IsCovered id (static e) inside = (refl, refl)

-- The stream with the events that some messages add to it.
abbrev pub IsGrown : List CanonicalEvent → ℕ → List CanonicalEvent → Type 0
IsGrown before n after = (All IsCovered after) × (length after ≤ length before + n)

module _ {W : Type 0} (services : Services W) (config : PipelineConfig)
    (log : W → List CanonicalEvent) (laws : IsStream services log) where
  on_message-Adds :
      (s : PipelineState W) (provider : String) (raw : RawProviderMessage)
      → Adds log
          (log s.world)
          (IsTraced services raw s.world)
          (log (on_message services config s provider raw).world)
  unfolding on_message
  on_message-Adds s provider raw =
      caught (handle services config raw (record s { received = provider ∷ s.received }))
        (handle-Adds services config log laws raw (record s { received = provider ∷ s.received }))
    where
      caught :
          (r : Option (Unit {0}) × PipelineState W)
          → Adds log (log s.world) (IsTraced services raw s.world) (log r.1.world)
          → Adds log (log s.world) (IsTraced services raw s.world) (log (logged r).world)
      caught (none, s') h = h
      caught (some done, s') h = h

  grown :
      (before after : List CanonicalEvent) (raw : RawProviderMessage) (w : W)
      → Adds log before (IsTraced services raw w) after
      → All IsCovered before
      → IsGrown before 1 after
  grown before after raw w (inl e) h = rw e (h, omega arith)
  grown before after raw w (inr (traced, e, fits)) h =
      rw (e, fits.4) ((traced-IsCovered fits.1 fits.0 fits.3, h), omega arith)

  -- Of any messages, each adds at most one event to the stream; and if every event in the stream
  -- has a trace id and, being a position, is in a coverage box, then so it is afterwards.
  pub on_messages-IsGrown :
      (s : PipelineState W) (messages : List (String × RawProviderMessage))
      → All IsCovered (log s.world)
      → IsGrown (log s.world) (length messages) (log (on_messages services config s messages).world)
  unfolding on_messages
  on_messages-IsGrown s [] h = (h, omega arith)
  on_messages-IsGrown s ((provider, raw) ∷ messages) h =
      let s' = on_message services config s provider raw in
      let one = grown (log s.world) (log s'.world) raw s.world (on_message-Adds s provider raw) h in
      let rest = on_messages-IsGrown s' messages one.0 in (rest.0, omega (arith, one.1, rest.1))
