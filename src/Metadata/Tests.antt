-- ===== src/Metadata/Tests.antt =====
-- A document and a chunk that are reported, with and without a database that refuses statements.
use text.Mathlib.Text.{◌==◌ as str_eq}
use aidata_pipeline.Prelude.{
  ◌+◌, ◌≤◌, ◌≡◌, ◌≢◌, ◌⊎◌, refl, ap, Bool, true, false, none, some, List, [], ◌∷◌, All, arith,
}
use aidata_pipeline.Prelude.Action.{ok, Returned, Failed}
use aidata_pipeline.External.Database.{Database}
use aidata_pipeline.External.Session.{Session, session, session_laws, session-Reliable}
use aidata_pipeline.External.Calls.{Outside}
use aidata_pipeline.Metadata.Tables.{Tables}
use aidata_pipeline.Metadata.Tables.Edges.{IsSound}
use aidata_pipeline.Metadata.Events.{Call, Data, Event, handled_event_type}
use aidata_pipeline.Metadata.Writes.{World}
use aidata_pipeline.Metadata.Consumer.{Polled, nothing, message, run, process_data}
use aidata_pipeline.Metadata.Consumer.Changes.{data_change}
use aidata_pipeline.Metadata.Consumer.Sound.{run-Sound}
use aidata_pipeline.Metadata.Consumer.Stuck.{run-one_failure}
use aidata_pipeline.Metadata.Consumer.Atomic.{process_data-atomic}
use aidata_pipeline.Metadata.Consumer.Refinement.{process_data-refines, result}
use aidata_pipeline.Metadata.Lineage.{
  upstream, downstream, rounds, upstream_roots, downstream_roots, upstream_chain, downstream_chain,
}
use aidata_pipeline.Metadata.Lineage.Tenants.{downstream_chain-tenant, upstream_chain-tenant}
use aidata_pipeline.Metadata.Lineage.Rounds.{chains-end}
use aidata_pipeline.Metadata.Versions.{NewVersion, Versions, create_schema_version, max_version}
use aidata_pipeline.Metadata.Versions.Current.{create_schema_version-current, current_of}

abbrev outside : Outside Call
outside = record { World = Unit; Exn = Unit; answer = λ c w. (ok tt, w) }

abbrev no_tables : Tables
no_tables = record { entities = []; lineage = []; data_quality = []; next_id = 0 }

no_tables-IsSound : IsSound no_tables
no_tables-IsSound = record { unique = λ key. omega arith; fresh = tt; located = tt; joined = tt }

abbrev db : Bool → Database Tables
db refused = session Tables refused

abbrev start : (refused : Bool) → World (db refused) outside
start refused = record {
  conn = record { seen = no_tables; committed = no_tables; aborted = false };
  trace = record { world = tt; log = [] };
}

abbrev document : Data
document = record {
  entity_type = some "RawDocument";
  entity_key = some "doc";
  tenant_id = some "acme";
  attributes = some (("source_path", "a.txt") ∷ []);
  upstream = none;
  quality_checks = none;
  pipeline_run_id = none;
  schema_version_id = none;
}

abbrev chunk : Data
chunk = record {
  entity_type = some "Chunk";
  entity_key = some "chunk";
  tenant_id = some "acme";
  attributes = none;
  upstream = some (
      record {
        entity_type = some "RawDocument";
        entity_key = some "doc";
        relationship = some "chunked_into";
      }
      ∷ []);
  quality_checks = some (
      record {
        check_name = some "length";
        status = some "failed";
        value = none;
        threshold = none;
        message = none;
      }
      ∷ []);
  pipeline_run_id = none;
  schema_version_id = none;
}

abbrev reported : Data → Event
reported d = record { event_type = some handled_event_type; event_data = some d }

abbrev polls : List Polled
polls = message (reported document) ∷ nothing ∷ message (reported chunk) ∷ []

run-Sound_example :
    IsSound ((db false).seen (run (db false) outside polls (start false)).1.conn)
    × IsSound ((db false).committed (run (db false) outside polls (start false)).1.conn)
run-Sound_example =
    run-Sound (db false) outside (session_laws Tables false) polls (start false) no_tables-IsSound
      no_tables-IsSound

run-one_failure_example :
    ((run (db true) outside (message (reported document) ∷ polls) (start true)).0 ≡ ok tt)
    × ((db true).committed
          (run (db true) outside (message (reported document) ∷ polls) (start true)).1.conn
        ≡ no_tables)
    × ((db true).aborted
          (run (db true) outside (message (reported document) ∷ polls) (start true)).1.conn
        ≡ true)
run-one_failure_example =
    run-one_failure (db true) outside (session_laws Tables true) (reported document) polls
      (start true) tt refl refl

process_data-atomic_example :
    ((db false).committed (process_data (db false) outside chunk (start false)).1.conn ≡ no_tables)
    ⊎ (data_change chunk no_tables ≡ (
      some tt,
      (db false).committed (process_data (db false) outside chunk (start false)).1.conn,
    ))
process_data-atomic_example =
    process_data-atomic (db false) outside (session_laws Tables false) chunk (start false)

process_data-refines_example :
    (db false).committed (process_data (db false) outside chunk (start false)).1.conn
    ≡ result (data_change chunk no_tables) no_tables
process_data-refines_example =
    process_data-refines (db false) outside (session_laws Tables false) (session-Reliable Tables)
      chunk (start false) refl

-- A document that comes from itself.
abbrev circle : Tables
circle = record {
  entities =
      record {
        id = 0;
        entity_type = "RawDocument";
        entity_key = "doc";
        tenant_id = "acme";
        attributes = ("source_path", "a.txt") ∷ [];
        pipeline_run_id = none;
        schema_version_id = none;
        is_current = true;
      }
      ∷ [];
  lineage =
      record { upstream_id = 0; downstream_id = 0; relationship = "r"; pipeline_run_id = none }
      ∷ [];
  data_quality = [];
  next_id = 1;
}

circle-IsSound : IsSound circle
circle-IsSound = record {
  unique = λ key. ground arith;
  fresh = (omega arith, tt);
  located = (refl, tt);
  joined = (refl, tt);
}

downstream_chain-tenant_example :
    All (λ row. row.entity.tenant_id ≡ "acme") (downstream_chain "acme" "a.txt" circle)
downstream_chain-tenant_example = downstream_chain-tenant "acme" "a.txt" circle circle-IsSound

upstream_chain-tenant_example :
    All (λ row. row.entity.tenant_id ≡ "acme") (upstream_chain "doc" circle)
upstream_chain-tenant_example =
    upstream_chain-tenant "doc" "acme" circle circle-IsSound (λ _. refl, tt)

chains-end_example :
    ((rounds (5 + 2) upstream circle (upstream_roots "doc" circle) ≡ upstream_chain "doc" circle)
      × All (λ r. r.depth ≤ 5) (upstream_chain "doc" circle))
    × ((rounds (4 + 2) downstream circle (downstream_roots "acme" "a.txt" circle)
          ≡ downstream_chain "acme" "a.txt" circle)
        × All (λ r. r.depth ≤ 4) (downstream_chain "acme" "a.txt" circle))
chains-end_example = chains-end "doc" "acme" "a.txt" 2 circle

abbrev new_version : NewVersion
new_version = record {
  tenant_id = "acme";
  embedding_model = "minilm";
  embedding_dimension = 384;
  embedding_backend = "local";
  chunk_size = 512;
  chunk_overlap = 64;
  chunking_strategy = "fixed";
  index_type = "IVF_FLAT";
  created_by = none;
}

abbrev versions_conn : Session Versions
versions_conn =
    let table : Versions = record { rows = []; next_id = 0 } in
    record { seen = table; committed = table; aborted = false }

abbrev versions_db : Database Versions
versions_db = session Versions false

acme_is_not_other : new_version.tenant_id ≢ "other"
acme_is_not_other h = ground (arith, ap (λ x. str_eq x "other") h)

create_schema_version-current_example :
    Returned
      (λ v c'.
        (current_of "acme" (versions_db.committed c').rows ≡ v ∷ [])
        × (current_of "other" (versions_db.committed c').rows ≡ [])
        × (v.is_current ≡ true)
        × (v.version_number ≡ max_version "acme" (versions_db.seen versions_conn).rows + 1)
        × Unit {0})
      (create_schema_version versions_db new_version versions_conn)
    × Failed
        (λ c'. versions_db.committed c' ≡ versions_db.committed versions_conn)
        (create_schema_version versions_db new_version versions_conn)
create_schema_version-current_example =
    create_schema_version-current versions_db (session_laws Versions false) new_version "other"
      versions_conn acme_is_not_other
