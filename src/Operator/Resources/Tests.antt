-- ===== src/Operator/Resources/Tests.antt =====
-- A connector on a schedule, and an embedding whose dimension changes.
use aidata_pipeline.Prelude.{false, none}
use aidata_pipeline.Operator.Resources.{EmbeddingSpec}

abbrev embedding : EmbeddingSpec
embedding = record {
  tenant_id = none;
  model = "m";
  backend = "b";
  device = "cpu";
  reindex_confirmed = false;
}
