-- ===== src/Rag/Service/Reliance.antt =====
-- What a query relies on of Redis, Milvus, JSON and SHA-256.
use aidata_pipeline.Prelude.{ℕ, ◌≡◌, ◌⊎◌, String, Bool, Option, none, some, List, All}
use aidata_pipeline.Prelude.Int.{ℤ}
use aidata_pipeline.Prelude.Action.{ok}
use aidata_pipeline.Rag.Breaker.{Outcome, returned}
use aidata_pipeline.Rag.Service.{RetrievedChunk, KeyFields, Backends, QueryResult}

-- Nothing is held after that was not held before.
abbrev pub Gained : {W Raw : Type 0} → (W → String → Option Raw) → W → W → Type 0
Gained {Raw = Raw} held w w' = (k : String) (r : Raw) → held w' k ≡ some r → held w k ≡ some r

-- A property of what a search returns, and of what the cache check finds.
abbrev pub Hits : {A E : Type 0} → (A → Type 0) → Outcome (List A) E → Type 0
Hits P (returned hits) = All P hits
Hits P _ = Unit

abbrev pub Found : {A : Type 0} → (A → Type 0) → Option (List A) → Type 0
Found P (some rs) = All P rs
Found P none = Unit

-- What Redis holds, and what is relied on: a `GET` answers what is held, a `SETEX` adds its own
-- entry, nothing else adds one, and entries may vanish at any time. A search of Milvus answers from the
-- collection named, and JSON loses nothing.
pub record BackendLaws (b : Backends) : Type 1 where
  pub held : b.World → String → Option b.Raw
  pub Belongs : String → QueryResult b.Score b.Json → Type 0
  pub get_keeps : (key : String) (w : b.World) → Gained held w (b.get key w).1
  pub get_held :
      (key : String) (raw : b.Raw) (w : b.World)
      → (b.get key w).0 ≡ ok (some raw)
      → held w key ≡ some raw
  pub setex_held :
      (key : String) (ttl : ℕ) (raw : b.Raw) (w : b.World) (k : String) (r : b.Raw)
      → held (b.setex key ttl raw w).1 k ≡ some r
      → (held w k ≡ some r) ⊎ ((k ≡ key) × (r ≡ raw))
  pub embed_keeps : (text : String) (w : b.World) → Gained held w (b.embed text w).1
  pub search_keeps :
      (collection : String) (v : b.Vector) (k : ℤ) (f : Option String) (w : b.World)
      → Gained held w (b.search collection v k f w).1
  pub search_hits :
      (collection : String) (v : b.Vector) (k : ℤ) (f : Option String) (w : b.World)
      → Hits (Belongs collection) (b.search collection v k f w).0
  pub publish_keeps :
      (w : b.World) (t : String) (n : ℕ) (c : Bool) → Gained held w (b.publish_usage t n c w)
  pub metadata_keeps :
      (w : b.World) (i t q : String) (k : ℤ) (f : Option String) (col : String) (c : Bool)
      → (xs : List (RetrievedChunk b.Score))
      → Gained held w (b.publish_metadata i t q k f col c xs w)
  pub dumps_key-injective : (f g : KeyFields) → b.dumps_key f ≡ b.dumps_key g → f ≡ g
  pub loads-dumps : (rs : List (QueryResult b.Score b.Json)) → b.loads (b.dumps rs) ≡ some rs

-- Among the queries that are ever asked, no two have different texts with one digest.
abbrev pub NoCollision : Backends → (KeyFields → Type 0) → Type 0
NoCollision b Asked =
    (f g : KeyFields)
    → Asked f
    → Asked g
    → b.sha256_hex (b.dumps_key f) ≡ b.sha256_hex (b.dumps_key g)
    → b.dumps_key f ≡ b.dumps_key g
