-- ===== src/Operator.antt =====
-- services/pipeline-operator/operator/handlers.py: what the operator does with the custom resources.
pub mod Upgrade
pub mod Resources
pub mod Manifests
pub mod Client
use aidata_pipeline.Prelude.{ℕ, Bool, ◌==◌}

-- `health_status == 200`
abbrev pub is_ok_status : ℕ → Bool
is_ok_status health_status = health_status == 200
