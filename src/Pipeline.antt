-- ===== src/Pipeline.antt =====
-- The ingestion pipeline (src/pipeline).
pub mod Coverage
pub mod Dedup
pub mod Sampler
pub mod Handle
pub mod Tests
use ais_tracking_system.Prelude.{ℕ, String, Bool, Option, none, some, List, [], ◌∷◌}
use ais_tracking_system.Prelude.Task.{Task}

-- The calls of Redis that the pipeline makes: `GET`, `SET … EX`, and `SET … EX … NX`, which replies
-- null where the key is there.
pub record Redis (W : Type 0) : Type 0 where
  pub get : String → Task W (Option String)
  pub set_ex : String → String → ℕ → Task W (Unit {0})
  pub set_nx_ex : String → String → ℕ → Task W (Option String)
