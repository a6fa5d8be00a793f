-- ===== src/Web/Sync/Outdated.antt =====
-- The answers to requests that are outdated.
use Prim.Native.String.{String}
use ais_tracking_system.Prelude.{ℕ, ◌<◌, ◌≡◌, arith, Option, List}
use ais_tracking_system.Prelude.Int.{ℤ}
use ais_tracking_system.Web.MergeReducer.{SnapshotRow}
use ais_tracking_system.Web.Sync.{SyncState, FetchError, fetch_resolved, fetch_rejected}

-- The answer to a request before the last one changes nothing, be it a snapshot or an error.
pub outdated_ignored :
    (parse : String → Option ℤ) (id : ℕ) (rows : List SnapshotRow) (now : ℤ) (e : FetchError)
    (s : SyncState)
    → id < s.request_id
    → (fetch_resolved parse id rows now s ≡ s) × (fetch_rejected parse id e s ≡ s)
unfolding fetch_resolved fetch_rejected
outdated_ignored parse id rows now e s h = (ground arith, ground arith)
