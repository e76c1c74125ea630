-- ===== src/Metadata/Events.antt =====
-- services/metadata-service/src/consumer.py and events.py: the events of the topic, decoded. A member
-- that a JSON object may lack is an option.
use aidata_pipeline.Prelude.{ℕ, String, Option, none, some, List}
use aidata_pipeline.Metadata.Tables.{Attributes}

-- One of the `upstream` members.
pub record Ref : Type 0 where
  pub entity_type : Option String
  pub entity_key : Option String
  pub relationship : Option String

pub record Check : Type 0 where
  pub check_name : Option String
  pub status : Option String
  pub value : Option String
  pub threshold : Option String
  pub message : Option String

pub record Data : Type 0 where
  pub entity_type : Option String
  pub entity_key : Option String
  pub tenant_id : Option String
  pub attributes : Option Attributes
  pub upstream : Option (List Ref)
  pub quality_checks : Option (List Check)
  pub pipeline_run_id : Option String
  pub schema_version_id : Option ℕ

pub record Event : Type 0 where
  pub event_type : Option String
  pub event_data : Option Data

-- `object.get(member, default)`
abbrev pub get_or {ℓ} : {A : Type ℓ} → Option A → A → A
get_or none default = default
get_or (some a) default = a

abbrev pub no_data : Data
no_data = record {
  entity_type = none;
  entity_key = none;
  tenant_id = none;
  attributes = none;
  upstream = none;
  quality_checks = none;
  pipeline_run_id = none;
  schema_version_id = none;
}

abbrev pub handled_event_type : String
handled_event_type = "metadata.entity.created"

-- The alert of `DataQualityFailedPublisher.publish`.
pub record Alert : Type 0 where
  pub subject : String
  pub entity_id : ℕ
  pub entity_type : String
  pub entity_key : String
  pub tenant_id : String
  pub failed_checks : List Check

-- The calls of the producer.
pub data Call : Type 0 where
  produce : (key : String) (value : Alert) → Call
  flush : Call
