-- ===== src/Geo/Validation/Gauge.antt =====
-- The gauge of the active dataset.
use ais_tracking_system.Prelude.{
  ℕ, ◌≡◌, ◌≢◌, refl, ap, sym, ◌∙◌, String, Bool, true, false, not, Option, none, some, [], ◌∷◌,
  arith, str_discrete, if_pos, if_neg, if◌then◌else◌, get_or_else,
}
use ais_tracking_system.Prelude.StringMap
use ais_tracking_system.Prelude.StringMap.{StringMap}
use ais_tracking_system.Prelude.Task.{Task, await, resolve}
use ais_tracking_system.Geo.{GeoValidationInput, GeoValidationResult}
use ais_tracking_system.Geo.Cache
use ais_tracking_system.Geo.Cache.{ResultText}
use ais_tracking_system.Geo.Validation.{
  Repository, GeoConfig, GeoState, truthy, without_other, without, on_world, attempt,
  record_active_dataset_version, clear_active_dataset_version, count_read, read_cache,
  count_written, write_cache, keep, query, look_up, answer, validate_enabled, caught,
  validate_position, to_result, is_cacheable,
}
use ais_tracking_system.Pipeline.{Redis}

-- What the gauge is for a last active version: 1 for it, and no other version.
abbrev pub shown : Option String → StringMap ℕ
shown none = []
shown (some version) = (version, 1) ∷ []

pub record IsShown {W : Type 0} (s : GeoState W) : Type 0 where
  pub gauge : s.active_dataset_info ≡ shown s.last_active_dataset_version
  pub named : s.last_active_dataset_version ≢ some ""

truthy_lem : (o : Option String) (v : String) → truthy o ≡ some v → v ≢ ""
truthy_lem none v e = cc
truthy_lem (some t) v e = ground arith

replaced :
    (last : Option String) (v : String)
    → last ≢ some ""
    → StringMap.put v 1 (without_other (truthy last) v (shown last)) ≡ shown (some v)
unfolding StringMap.put StringMap.delete
replaced none v h = refl
replaced (some l) v h =
    rw (if_neg (str_discrete l "") (λ e. h (ap (λ t. some t) e))) (elim (str_discrete l v) [
      | yes same ↦
          rw (if_pos (str_discrete l v) same, if_pos (str_discrete l v) same)
            (ap (λ t. (t, 1) ∷ []) same)
      | no other ↦ rw (if_neg (str_discrete l v) other, if_pos (str_discrete l l) refl) refl
    ])

cleared : (last : Option String) → last ≢ some "" → without (truthy last) (shown last) ≡ []
unfolding StringMap.delete
cleared none h = refl
cleared (some l) h =
    rw (if_neg (str_discrete l "") (λ e. h (ap (λ t. some t) e)), if_pos (str_discrete l l) refl)
      refl

await-IsShown :
    {W A B : Type 0} (r : Option A × GeoState W) (f : A → Task (GeoState W) B)
    → IsShown r.1
    → ((a : A) (s : GeoState W) → IsShown s → IsShown (f a s).1)
    → IsShown (await r f).1
await-IsShown (none, s) f h k = h
await-IsShown (some a, s) f h k = k a s h

attempt-IsShown :
    {W A B : Type 0} (m : Task (GeoState W) A) (f : Option A → Task (GeoState W) B) (s : GeoState W)
    → IsShown (m s).1
    → ((o : Option A) (t : GeoState W) → IsShown t → IsShown (f o t).1)
    → IsShown (await (attempt m s) f).1
attempt-IsShown m f s h k = k (m s).0 (m s).1 h

if-IsShown :
    {W A : Type 0} (b : Bool) (m n : Task (GeoState W) A) (s : GeoState W)
    → IsShown (m s).1
    → IsShown (n s).1
    → IsShown ((if b then m else n) s).1
if-IsShown true m n s h k = h
if-IsShown false m n s h k = k

record-IsShown :
    {W : Type 0} (v : String) (s : GeoState W)
    → v ≢ ""
    → IsShown s
    → IsShown (record_active_dataset_version v s).1
unfolding record_active_dataset_version
record-IsShown v s ne h = record {
  gauge =
      ap (λ info. StringMap.put v 1 (without_other (truthy s.last_active_dataset_version) v info))
        h.gauge
      ∙ replaced s.last_active_dataset_version v h.named;
  named = λ e. ne (ap (λ o. get_or_else o v) e);
}

clear-IsShown :
    {W : Type 0} (s : GeoState W) → IsShown s → IsShown (clear_active_dataset_version s).1
unfolding clear_active_dataset_version
clear-IsShown s h = record {
  gauge =
      ap (λ info. without (truthy s.last_active_dataset_version) info) h.gauge
      ∙ cleared s.last_active_dataset_version h.named;
  named = λ e. cc;
}

module _ {W : Type 0} (repository : Repository W) (redis : Redis W) (texts : ResultText)
    (config : GeoConfig) where
  same-IsShown :
      (s t : GeoState W)
      → t.active_dataset_info ≡ s.active_dataset_info
      → t.last_active_dataset_version ≡ s.last_active_dataset_version
      → IsShown s
      → IsShown t
  same-IsShown s t e f h = record {
    gauge = e ∙ h.gauge ∙ ap (λ o. shown o) (sym f);
    named = λ g. h.named (sym f ∙ g);
  }

  count_read-IsShown :
      (o : Option (Option GeoValidationResult)) (s : GeoState W)
      → IsShown s
      → IsShown (count_read repository redis texts config o s).1
  count_read-IsShown none s h = same-IsShown s _ refl refl h
  count_read-IsShown (some none) s h = same-IsShown s _ refl refl h
  count_read-IsShown (some (some cached)) s h = same-IsShown s _ refl refl h

  read_cache-IsShown :
      (v : String) (p : GeoValidationInput) (s : GeoState W)
      → IsShown s
      → IsShown (read_cache repository redis texts config v p s).1
  unfolding read_cache
  read_cache-IsShown v p s h =
      if-IsShown (not config.cache.enabled) _ _ s (same-IsShown s _ refl refl h) (
        attempt-IsShown (on_world (Cache.get redis texts config.cache v p))
          (count_read repository redis texts config) s (same-IsShown s _ refl refl h)
          count_read-IsShown)

  count_written-IsShown :
      (o : Option (Unit {0})) (s : GeoState W)
      → IsShown s
      → IsShown (count_written repository redis texts config o s).1
  count_written-IsShown none s h = same-IsShown s _ refl refl h
  count_written-IsShown (some done) s h = h

  write_cache-IsShown :
      (v : String) (p : GeoValidationInput) (result : GeoValidationResult) (s : GeoState W)
      → IsShown s
      → IsShown (write_cache repository redis texts config v p result s).1
  unfolding write_cache
  write_cache-IsShown v p result s h =
      attempt-IsShown (on_world (Cache.set redis texts config.cache v p result))
        (count_written repository redis texts config) s (same-IsShown s _ refl refl h)
        count_written-IsShown

  keep-IsShown :
      (o : Option String) (p : GeoValidationInput) (result : GeoValidationResult) (s : GeoState W)
      → ((v : String) → o ≡ some v → v ≢ "")
      → IsShown s
      → IsShown (keep repository redis texts config o p result s).1
  keep-IsShown none p result s ne h = h
  keep-IsShown (some v) p result s ne h =
      await-IsShown (record_active_dataset_version v s) _ (record-IsShown v s (ne v refl) h)
        (λ d t k.
          if-IsShown (is_cacheable result.reason)
            (write_cache repository redis texts config v p result) (resolve tt) t
            (write_cache-IsShown v p result t k) k)

  query-IsShown :
      (p : GeoValidationInput) (s : GeoState W)
      → IsShown s
      → IsShown (query repository redis texts config p s).1
  unfolding query
  query-IsShown p s h =
      await-IsShown (on_world (repository.validate_position p.lon p.lat) s) _
        (same-IsShown s _ refl refl h)
        (λ r t k.
          await-IsShown
            (keep repository redis texts config (truthy (to_result r).dataset_version) p
              (to_result r) t)
            _
            (keep-IsShown _ p (to_result r) t (λ v e. truthy_lem (to_result r).dataset_version v e)
              k)
            (λ d u l. same-IsShown u _ refl refl l))

  look_up-IsShown :
      (p : GeoValidationInput) (o : Option String) (s : GeoState W)
      → ((v : String) → o ≡ some v → v ≢ "")
      → IsShown s
      → IsShown (look_up repository redis texts config p o s).1
  look_up-IsShown p none s ne h =
      await-IsShown (clear_active_dataset_version s) _ (clear-IsShown s h) (λ d t k. k)
  look_up-IsShown p (some v) s ne h =
      await-IsShown (record_active_dataset_version v s) _ (record-IsShown v s (ne v refl) h)
        (λ d t k. read_cache-IsShown v p t k)

  answer-IsShown :
      (p : GeoValidationInput) (o : Option GeoValidationResult) (s : GeoState W)
      → IsShown s
      → IsShown (answer repository redis texts config p o s).1
  answer-IsShown p none s h = query-IsShown p s h
  answer-IsShown p (some cached) s h = same-IsShown s _ refl refl h

  validate_enabled-IsShown :
      (p : GeoValidationInput) (s : GeoState W)
      → IsShown s
      → IsShown (validate_enabled repository redis texts config p s).1
  unfolding validate_enabled
  validate_enabled-IsShown p s h =
      await-IsShown (on_world repository.active_dataset_version s) _ (same-IsShown s _ refl refl h)
        (λ o t k.
          await-IsShown (look_up repository redis texts config p (truthy o) t) _
            (look_up-IsShown p (truthy o) t (λ v e. truthy_lem o v e) k)
            (λ cached u l. answer-IsShown p cached u l))

  caught-IsShown :
      (o : Option GeoValidationResult) (s : GeoState W)
      → IsShown s
      → IsShown (caught repository redis texts config o s).1
  caught-IsShown none s h = same-IsShown s _ refl refl h
  caught-IsShown (some result) s h = h

  -- If the gauge shows the last active version alone, and that is no empty text, then so it does
  -- after a validation, whichever of its calls are rejected.
  pub validate_position-IsShown :
      (p : GeoValidationInput) (s : GeoState W)
      → IsShown s
      → IsShown (validate_position repository redis texts config p s).1
  unfolding validate_position
  validate_position-IsShown p s h =
      if-IsShown (not config.validation_enabled) _ _ s (same-IsShown s _ refl refl h) (
        attempt-IsShown (validate_enabled repository redis texts config p)
          (caught repository redis texts config) s (validate_enabled-IsShown p s h) caught-IsShown)
