-- ===== src/Metadata/Consumer.antt =====
-- services/metadata-service/src/consumer.py: an event becomes an entity, the edges to what it came
-- from and the outcomes of its checks, in one transaction of the consumer's only connection.
pub mod Kept
pub mod Sound
pub mod Stuck
pub mod Changes
pub mod Tracking
pub mod Tracks
pub mod Atomic
pub mod Refinement
use text.Mathlib.Text.{◌==◌ as str_eq}
use Prim.Native.String.{◌++◌}
use aidata_pipeline.Prelude.{ℕ, String, Bool, Option, none, some, List, [], ◌∷◌, if◌then◌else◌}
use aidata_pipeline.Prelude.Action.{Action, Result, ok, err, pure, ◌>>=◌, ◌>>◌, try_except}
use aidata_pipeline.External.Database.{Database}
use aidata_pipeline.External.Calls.{Outside, Trace, call}
use aidata_pipeline.Metadata.Tables.{Tables, Key, NewEntity, upsert_entity}
use aidata_pipeline.Metadata.Events.{
  Call, Check, Ref, Data, Event, Alert, get_or, no_data, handled_event_type, produce, flush,
}
use aidata_pipeline.Metadata.Writes.{
  World, Service, Raised, required, execute, insert_lineage_edge, insert_quality_checks, outcome,
  update_entity_quality_failed,
}

-- The entity that an event reports.
abbrev pub new_entity : Data → NewEntity
new_entity reported = record {
  key = record {
    tenant_id = get_or reported.tenant_id "";
    entity_type = get_or reported.entity_type "";
    entity_key = get_or reported.entity_key "";
  };
  attributes = get_or reported.attributes [];
  pipeline_run_id = reported.pipeline_run_id;
  schema_version_id = reported.schema_version_id;
}

abbrev pub alert_of : ℕ → Key → List Check → Alert
alert_of id key failed = record {
  subject = key.entity_type ++ ("/" ++ key.entity_key);
  entity_id = id;
  entity_type = key.entity_type;
  entity_key = key.entity_key;
  tenant_id = key.tenant_id;
  failed_checks = failed;
}

-- What the poll of the consumer returns.
pub data Polled : Type 0 where
  nothing : Polled
  failure : Polled
  undecodable : Polled
  message : Event → Polled

module _ (d : Database Tables) (o : Outside Call) where
  -- `try: m  except Exception: log it`
  abbrev pub swallow : Service d o Unit → Service d o Unit
  swallow m = try_except m (λ _. pure tt)

  unfoldable pub publish : ℕ → Key → List Check → Service d o Unit
  publish id key failed s =
      let both = call o (produce key.entity_key (alert_of id key failed)) >> call o flush in
      (ok tt, record s { trace = (both s.trace).1 })

  unfoldable pub add_ref : String → ℕ → Option String → Ref → Service d o Unit
  add_ref tenant id run ref = required d o ref.entity_type >>= λ entity_type.
      required d o ref.entity_key >>= λ entity_key.
      required d o ref.relationship >>= λ relationship.
      insert_lineage_edge d o
        (record { tenant_id = tenant; entity_type = entity_type; entity_key = entity_key }) id
        relationship run

  unfoldable pub add_refs : String → ℕ → Option String → List Ref → Service d o Unit
  add_refs tenant id run [] = pure tt
  add_refs tenant id run (ref ∷ refs) =
      swallow (add_ref tenant id run ref) >> add_refs tenant id run refs

  -- `if failed_checks:`
  unfoldable pub report_failed : ℕ → Key → List Check → Service d o Unit
  report_failed id key [] = pure tt
  report_failed id key (check ∷ checks) =
      swallow (update_entity_quality_failed d o id) >> publish id key (check ∷ checks)

  unfoldable pub commit : Service d o Unit
  commit s = let (r, c) = d.commit s.conn in (outcome r, record s { conn = c })

  -- What follows from the entity: its edges, its checks and the alert.
  unfoldable pub record_rest : Data → ℕ → Service d o Unit
  record_rest reported id =
      add_refs (new_entity reported).key.tenant_id id reported.pipeline_run_id
        (get_or reported.upstream [])
      >>= λ _.
          insert_quality_checks d o id reported.pipeline_run_id (get_or reported.quality_checks [])
          >>= report_failed id (new_entity reported).key

  unfoldable pub process_data : Data → Service d o Unit
  process_data reported = execute d o (upsert_entity (new_entity reported)) >>= λ id.
      record_rest reported id >> swallow commit

  unfoldable pub process_event : Event → Service d o Unit
  process_event event =
      if str_eq (get_or event.event_type "") handled_event_type
      then process_data (get_or event.event_data no_data)
      else pure tt

  -- What `run` does with a poll.
  unfoldable pub turn : Polled → Service d o Unit
  turn nothing = pure tt
  turn failure = pure tt
  turn undecodable = pure tt
  turn (message event) = swallow (process_event event)

  -- The loop of `run`, on the polls until it is interrupted.
  unfoldable pub run : List Polled → Service d o Unit
  run [] = pure tt
  run (p ∷ ps) = turn p >> run ps
