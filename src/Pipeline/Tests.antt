-- ===== src/Pipeline/Tests.antt =====
-- Runs of the pipeline at concrete inputs.
use ais_tracking_system.Prelude.{
  ◌≡◌, refl, ◌↔◌, inr, differ, String, false, Option, some, none, List, [], ◌∷◌, str_discrete,
  length, if_pos, is_some, if◌then◌else◌,
}
use Prim.Native.String.{len}
use ais_tracking_system.Prelude.Int.{ℤ, pos, ◌+ℤ◌, ◌<ℤ◌}
use ais_tracking_system.Prelude.StringMap
use ais_tracking_system.Prelude.StringMap.{StringMap, get-put}
use ais_tracking_system.Contracts.{PositionEvent, CanonicalEvent, position}
use ais_tracking_system.Contracts.Json.{null}
use ais_tracking_system.Contracts.Samples.{seen}
use ais_tracking_system.Geo.{allow, navigable_water}
use ais_tracking_system.Pipeline.{Redis}
use ais_tracking_system.Pipeline.Coverage.{plus, point_in_any_bbox}
use ais_tracking_system.Pipeline.Dedup.{should_accept}
use ais_tracking_system.Pipeline.Sampler.{
  JsonText, SamplerConfig, state_json, emitted, should_emit, is_changed, nav_status_of, window_ms,
}
use ais_tracking_system.Pipeline.Sampler.Again.{IsStored, IsRoundTrip, should_emit-again}
use ais_tracking_system.Pipeline.Handle.{
  RawProviderMessage, Services, PipelineConfig, PipelineState, handle, on_messages,
}
use ais_tracking_system.Pipeline.Handle.Accounts.{IsAccounted, on_messages-IsAccounted}
use ais_tracking_system.Pipeline.Handle.Log.{IsStream, Adds}
use ais_tracking_system.Pipeline.Handle.Publish.{IsTraced, handle-Adds}
use ais_tracking_system.Pipeline.Handle.Stream.{IsGrown, on_messages-IsGrown}

-- The keys of Redis and the stream.
record World : Type 0 where
  store : StringMap String
  stream : List CanonicalEvent

abbrev reply_of : Option String → Option String
reply_of none = some "OK"
reply_of (some v) = none

abbrev redis : Redis World
redis = record {
  get = λ k w. (some (StringMap.get k w.store), w);
  set_ex = λ k v ttl w. (some tt, record w { store = StringMap.put k v w.store });
  set_nx_ex = λ k v ttl w. (
    some (reply_of (StringMap.get k w.store)),
    record w {
      store = if is_some (StringMap.get k w.store) then w.store else StringMap.put k v w.store;
    },
  );
}

-- 45.0 N, 30.0 E, in the Black Sea.
abbrev at_sea : String → String → PositionEvent
at_sea mmsi time = record (seen mmsi time) {
  lat = plus 0x4046800000000000;
  lon = plus 0x403e000000000000;
}

-- Texts of one state alone.
abbrev json : JsonText
json = record {
  parse = λ text. some (state_json (emitted (at_sea "a" "i")));
  stringify = λ j. "{}";
}

abbrev strokes : String → Option ℤ
strokes s = some (pos (len s))

abbrev sampler_config : SamplerConfig
sampler_config = record {
  moving_window_seconds = 10;
  stationary_window_seconds = 60;
  stationary_sog_threshold = plus 0x3fe0000000000000;
  state_ttl_seconds = 600;
}

abbrev services : Services World
services = record {
  redis = redis;
  json = json;
  parse_date = strokes;
  normalize = λ raw w. (some (some (position (at_sea raw.provider raw.received_at))), w);
  random_uuid = λ w. (some "uuid", w);
  validate_position = λ e w. (
    some (record {
      verdict = allow;
      reason = navigable_water;
      dataset_version = none;
      should_drop = false;
    }),
    w,
  );
  publish = λ stream e w. (some "1-0", record w { stream = e ∷ w.stream });
}

abbrev config : PipelineConfig
config = record { dedup_ttl_seconds = 600; sampler = sampler_config }

abbrev start : PipelineState World
start = record {
  world = record { store = []; stream = [] };
  received = [];
  dropped = [];
  published = [];
  errors = 0;
}

abbrev message : RawProviderMessage
message = record { provider = "a"; received_at = "i"; payload = null }

abbrev messages : List (String × RawProviderMessage)
messages = ("aisstream", message) ∷ ("aisstream", message) ∷ []

-- Of two equal messages, the first one is published.
publishes_once : length (on_messages services config start messages).world.stream ≡ 1
unfolding on_messages str_discrete StringMap.get should_accept point_in_any_bbox should_emit
    StringMap.put
publishes_once = refl

abbrev stream_of : World → List CanonicalEvent
stream_of w = w.stream

services-IsStream : IsStream services stream_of
services-IsStream = record {
  get = λ k w. refl;
  set_ex = λ k v ttl w. refl;
  set_nx_ex = λ k v ttl w. refl;
  normalize = λ raw w. refl;
  random_uuid = λ w. refl;
  validate = λ e w. refl;
  publish = λ e w. inr refl;
}

on_messages-IsAccounted_example : IsAccounted (on_messages services config start messages)
on_messages-IsAccounted_example = on_messages-IsAccounted services config start messages refl

handle-Adds_example :
    Adds stream_of []
      (IsTraced services message start.world)
      (handle services config message start).1.world.stream
handle-Adds_example = handle-Adds services config stream_of services-IsStream message start

on_messages-IsGrown_example : IsGrown [] 2 (on_messages services config start messages).world.stream
on_messages-IsGrown_example =
    on_messages-IsGrown services config stream_of services-IsStream start messages tt

redis-IsStored : IsStored redis
redis-IsStored k v ttl w e = rw (get-put k k v w.store, if_pos (str_discrete k k) refl) refl

json-IsRoundTrip : IsRoundTrip json (emitted (at_sea "a" "i"))
json-IsRoundTrip = (differ "{}" "" (λ e. cc), refl)

should_emit-again_example :
    ((should_emit redis json sampler_config strokes
        (at_sea "a" "ii")
        (should_emit redis json sampler_config strokes (at_sea "a" "i") start.world).1).0
      ≡ some false)
    ↔ ((is_changed (nav_status_of (at_sea "a" "ii")) (nav_status_of (at_sea "a" "i")) ≡ false)
        × (pos 2 <ℤ pos 1 +ℤ pos (window_ms sampler_config (at_sea "a" "ii"))))
unfolding should_emit StringMap.get
should_emit-again_example =
    should_emit-again redis json sampler_config strokes (at_sea "a" "i") (at_sea "a" "ii")
      start.world (pos 1) (pos 2) redis-IsStored json-IsRoundTrip refl refl refl refl
