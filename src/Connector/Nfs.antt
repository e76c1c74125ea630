-- ===== src/Connector/Nfs.antt =====
-- services/connector-nfs/src/connector.py: the watchdog's handler and `NFSConnector.poll`, run to its
-- end. Walking the tree, `isfile`, MIME types, relative paths, sorting and UUIDs are parameters.
pub mod Marking
mod Tests
use Prim.Native.String.{◌++◌}
use text.Mathlib.Text.{◌==◌}
use aidata_pipeline.Prelude.{
  String, Bool, true, false, not, ◌||◌, ◌&&◌, Option, none, some, List, [], ◌∷◌, if◌then◌else◌,
}
use aidata_pipeline.Prelude.Action.{Action, Result, ok, err, pure, modify, ◌>>=◌, ◌>>◌}
use aidata_pipeline.External.Calls.{Outside, Trace, call, attempt, note}
use aidata_pipeline.Connector.{
  path_and_mount, RawDocumentEvent, pending, Call, write_source_file_status, count_error,
  raw_document, sadd_known, publish_with_retry,
}

pub record FileSystemEvent : Type 0 where
  pub is_directory : Bool
  pub src_path : String

pub record Setup (World Exn : Type 0) : Type 0 where
  pub mount_path : String
  pub tenant_id : String
  pub has_metadata_publisher : Bool
  pub is_allowed_extension : String → Bool
  pub guess_type : String → Option String
  pub rel_path : String → Option String
  pub uuid4 : World → String
  pub sorted : List String → List String
  pub is_observer_alive : World → Bool
  pub is_file : String → World → Bool
  pub walk : World → List String
  pub smembers_known : Action World Exn (List String)

-- The connector, with the queue that the watchdog fills.
pub record Connector (o : Outside Call) : Type 0 where
  pub trace : Trace o
  pub queue : List String

abbrev pub has_path : String → List String → Bool
has_path p [] = false
has_path p (q ∷ qs) = (p == q) || has_path p qs

-- A set of paths as a list: `paths.add(path)`.
abbrev pub add_path : String → List String → List String
add_path p ps = if has_path p ps then ps else p ∷ ps

-- `_drain_queue`
unfoldable pub drain_queue : List String → List String
drain_queue [] = []
drain_queue (p ∷ ps) = add_path p (drain_queue ps)

-- `Queue.put`
abbrev pub put : String → List String → List String
put p [] = p ∷ []
put p (q ∷ qs) = q ∷ put p qs

module _ (o : Outside Call) (setup : Setup o.World o.Exn) where
  -- `on_created` and `on_modified`.
  unfoldable pub on_event : FileSystemEvent → List String → List String
  on_event event queue =
      if event.is_directory
      then queue
      else if setup.is_allowed_extension event.src_path
      then put event.src_path queue
      else queue

  -- The files of the tree with an extension that is allowed, less those known.
  unfoldable pub tree_diff : List String → List String → List String
  tree_diff known [] = []
  tree_diff known (p ∷ files) =
      let rest = tree_diff known files in
      if setup.is_allowed_extension p && not (has_path p known) then add_path p rest else rest

  abbrev pub Run : Type 0 → Type 0
  Run A = Action (Trace o) o.Exn A

  abbrev pub event_of : String → String → RawDocumentEvent
  event_of path event_id = record {
    source_type = "nfs";
    source_id = "nfs://" ++ elim (setup.rel_path path) [ some rel ↦ rel | none ↦ path ];
    content_ref = path;
    content_type = elim (setup.guess_type path) [ some t ↦ t | none ↦ "application/octet-stream" ];
    tenant_id = setup.tenant_id;
    metadata = path_and_mount path setup.mount_path;
    event_id = event_id;
  }

  -- The test of `_make_event`: without it there is no event.
  abbrev pub is_event : String → o.World → Bool
  is_event path w = setup.is_file path w && setup.is_allowed_extension path

  -- The loop's body for a path that has an event; the event is yielded if it was published.
  unfoldable pub publish_path : String → Run (Option RawDocumentEvent)
  publish_path path s =
      let event = event_of path (setup.uuid4 s.world) in
      (call o (write_source_file_status path event.event_id pending none)
          >> publish_with_retry o event
          >>= λ published.
              if not published
              then note o count_error >> pure none
              else call o (sadd_known path)
                >> (if setup.has_metadata_publisher
                    then attempt o (raw_document event)
                    else pure tt)
                >> pure (some event))
        s

  unfoldable pub visit_path : String → Run (Option RawDocumentEvent)
  visit_path path s = if is_event path s.world then publish_path path s else (ok none, s)

  abbrev pub cons_some : Option RawDocumentEvent → List RawDocumentEvent → List RawDocumentEvent
  cons_some none events = events
  cons_some (some event) events = event ∷ events

  unfoldable pub visit_paths : List String → Run (List RawDocumentEvent)
  visit_paths [] = pure []
  visit_paths (path ∷ paths) =
      visit_path path >>= λ event. visit_paths paths >>= λ events. pure (cons_some event events)

  -- `poll`: the queue is drained while the observer is alive, and the tree is compared otherwise.
  unfoldable pub poll : Action (Connector o) o.Exn (List RawDocumentEvent)
  poll c =
      if setup.is_observer_alive c.trace.world
      then (let (r, t) = visit_paths (setup.sorted (drain_queue c.queue)) c.trace in
          (r, record { trace = t; queue = [] }))
      else (let (known, w) = setup.smembers_known c.trace.world in
          let t = record c.trace { world = w } in
          elim known [
            | ok paths ↦
                let (r, t') = visit_paths (setup.sorted (tree_diff paths (setup.walk w))) t in
                (r, record c { trace = t' })
            | err e ↦ (err e, record c { trace = t })
          ])
