-- ===== src/Rag/Service/Tests.antt =====
-- The service over an in-memory cache and an index of two documents per collection.
use text.Mathlib.Text.{◌==◌}
use text.Mathlib.TextEquality.{eq_iff}
use aidata_pipeline.Prelude.{
  ℕ, ◌≡◌, ◌⊎◌, refl, inl, String, Bool, true, false, Option, none, some, List, [], ◌∷◌, leb, All,
  ap, sym, ◌∙◌, arith, if◌then◌else◌,
}
use aidata_pipeline.Prelude.Int.{pos}
use aidata_pipeline.Prelude.Action.{ok, err, Returned}
use aidata_pipeline.Rag.Breaker.{returned, raised, make, call}
use aidata_pipeline.Rag.Service.{
  KeyFields, Backends, Service, QueryRequest, QueryResult, QueryResponse, redis_error, other_error,
  query, guarded_search, status_code, slice_to, at_least, cache_key,
}
use aidata_pipeline.Rag.Service.Isolation.{Sound, query_isolates}
use aidata_pipeline.Rag.Service.Reliance.{BackendLaws, NoCollision}
use aidata_pipeline.Rag.Service.Answers.{AsRequested, fresh-AsRequested, refused_by_redis}

abbrev Results : Type 0
Results = List (QueryResult ℕ Unit)

record Cluster : Type 0 where
  entries : String → Option Results
  redis_down : Bool
  milvus_down : Bool

abbrev hit : String → ℕ → QueryResult ℕ Unit
hit collection score = record {
  chunk_id = "d:0";
  text = "hi";
  score = score;
  source_type = "s3";
  doc_id = collection;
  metadata = tt;
}

abbrev hits : String → Results
hits collection = hit collection 1 ∷ hit collection 3 ∷ []

abbrev put : String → Results → Cluster → Cluster
put key raw w = record w { entries = λ k. if k == key then some raw else w.entries k }

abbrev backends : Backends
backends = record {
  World = Cluster;
  Score = ℕ;
  Json = Unit;
  Bytes = KeyFields;
  Vector = Unit;
  Raw = Results;
  clock = λ w. 10;
  uuid4 = λ w. "r1";
  get = λ key w. if w.redis_down then (err redis_error, w) else (ok (w.entries key), w);
  setex = λ key ttl raw w. if w.redis_down then (err redis_error, w) else (ok tt, put key raw w);
  embed = λ text w. (ok tt, w);
  search = λ collection v k f w.
      if w.milvus_down then (raised other_error, w) else (returned (hits collection), w);
  publish_usage = λ t n c w. w;
  publish_metadata = λ i t q k f col c xs w. w;
  ge_score = λ a m. leb m a;
  dumps_key = λ fields. fields;
  sha256_hex = λ fields. fields.col;
  dumps = λ rs. rs;
  loads = λ rs. some rs;
}

laws : BackendLaws backends
laws = record {
  held = λ w k. w.entries k;
  Belongs = λ collection r. r.doc_id ≡ collection;
  get_keeps = λ key w k r h. ground arith;
  get_held = λ key raw w h. ground arith;
  setex_held = λ key ttl raw w k r h. ground (arith, eq_iff k key);
  embed_keeps = λ text w k r h. h;
  search_keeps = λ collection v k f w j r h. ground arith;
  search_hits = λ collection v k f w. ground arith;
  publish_keeps = λ w t n c k r h. h;
  metadata_keeps = λ w i t q k f col c xs j r h. h;
  dumps_key-injective = λ f g h. h;
  loads-dumps = λ rs. refl;
}

abbrev cluster : Bool → Bool → Cluster
cluster redis_down milvus_down = record {
  entries = λ k. none;
  redis_down = redis_down;
  milvus_down = milvus_down;
}

abbrev service : Bool → Bool → Service backends
unfolding make
service redis_down milvus_down = record {
  world = cluster redis_down milvus_down;
  breaker = make 5 30;
}

abbrev request : QueryRequest ℕ
request = record { query = "what"; top_k = pos 5; source_filter = none; min_score = 2 }

abbrev answer : QueryResponse ℕ Unit
answer = record { results = hit "acme_docs" 3 ∷ []; cached = false; request_id = "r1" }

fresh_answer : (query backends 3600 request "acme" (service false false)).0 ≡ ok answer
unfolding query make call
fresh_answer = refl

-- The queries asked are the one text from any tenant, so that its key is that of the collection.
abbrev Asked : KeyFields → Type 0
Asked f = f ≡ record { col = f.col; k = pos 5; q = "what"; sf = none }

distinct : NoCollision backends Asked
distinct f g a a' e = a ∙ ap (λ c. record { col = c; k = pos 5; q = "what"; sf = none }) e ∙ sym a'

service-Sound : Sound laws 3600 Asked distinct (cluster false false)
unfolding Sound laws
service-Sound f raw rs a h d = ground arith

query_isolates_example :
    let (r, s) = query backends 3600 request "acme" (service false false) in
    Sound laws 3600 Asked distinct s.world
    × Returned (λ response s'. All (laws.Belongs "acme_docs") response.results) (r, s)
unfolding service
query_isolates_example =
    query_isolates laws 3600 Asked distinct request "acme" (service false false) refl service-Sound

fresh-AsRequested_example :
    Returned
      (λ response s'. AsRequested backends 3600 request response)
      (query backends 3600 request "acme" (service false false))
fresh-AsRequested_example = fresh-AsRequested backends 3600 request "acme" (service false false)

-- Redis refuses the read.
refused_by_redis_example :
    let (r, w) = backends.get (cache_key backends 3600 request "acme") (cluster true false) in
    let found = guarded_search backends 3600 request "acme" tt (service true false) in
    let results =
      at_least backends 3600 request.min_score (slice_to request.top_k (hits "acme_docs")) in
    let (x, w'') =
      backends.setex
        (cache_key backends 3600 request "acme")
        3600
        (backends.dumps results)
        found.1.world in
    let (result, s') = query backends 3600 request "acme" (service true false) in
    (status_code backends 3600 result ≡ 500)
    × (((r ≡ err redis_error) × (s' ≡ record (service true false) { world = w }))
        ⊎ ((r ≡ ok none) × (s' ≡ record found.1 { world = w'' })))
unfolding service
refused_by_redis_example =
    refused_by_redis backends 3600 request "acme" tt (hits "acme_docs") (service true false)
      (inl refl)
