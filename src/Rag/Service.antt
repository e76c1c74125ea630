-- ===== src/Rag/Service.antt =====
-- services/rag-api/src/app.py, `RagService.query` and the endpoint's translation of its errors.
-- Redis, the embedder, Milvus and the publishers are parameters, as are JSON, SHA-256 and floats.
pub mod Reliance
pub mod Isolation
pub mod Answers
mod Tests
use Prim.Native.Nat.{ℕ}
use Prim.Native.String.{◌++◌}
use aidata_pipeline.Prelude.{
  ◌+◌, ◌-◌, String, Bool, true, false, Option, none, some, List, [], ◌∷◌, map, length, take,
  if◌then◌else◌,
}
use aidata_pipeline.Prelude.Int.{ℤ, pos, negsuc}
use aidata_pipeline.Prelude.Action.{
  Action, Result, ok, err, pure, raise, gets, ◌>>=◌, ◌>>◌, try_except, modify,
}
use aidata_pipeline.Rag.Breaker.{CircuitBreaker, Outcome, returned, raised_open, raised, call}

-- `connection_error` is Python's `ConnectionError`; `redis_error` is what the Redis client raises, of
-- which its own `ConnectionError` is one, and which is no `ConnectionError` of Python's.
pub data Exn : Type 0 where
  connection_error redis_error service_unavailable_error other_error : Exn

pub record QueryRequest (Score : Type 0) : Type 0 where
  pub query : String
  pub top_k : ℤ
  pub source_filter : Option String
  pub min_score : Score

-- A hit of the search and a result of the service carry the same fields; `metadata` is a `dict`.
pub record QueryResult (Score Json : Type 0) : Type 0 where
  pub chunk_id : String
  pub text : String
  pub score : Score
  pub source_type : String
  pub doc_id : String
  pub metadata : Json

pub record QueryResponse (Score Json : Type 0) : Type 0 where
  pub results : List (QueryResult Score Json)
  pub cached : Bool
  pub request_id : String

pub record RetrievedChunk (Score : Type 0) : Type 0 where
  pub entity_key : String
  pub rank : ℕ
  pub score : Score

-- The `dict` that a cache key is the digest of.
pub record KeyFields : Type 0 where
  pub col : String
  pub k : ℤ
  pub q : String
  pub sf : Option String

-- `dumps_key` is `json.dumps` of such a `dict` with its keys sorted, as bytes.
pub record Backends : Type 1 where
  pub World : Type 0
  pub Score : Type 0
  pub Json : Type 0
  pub Bytes : Type 0
  pub Vector : Type 0
  pub Raw : Type 0
  pub clock : World → ℕ
  pub uuid4 : World → String
  pub get : String → Action World Exn (Option Raw)
  pub setex : String → ℕ → Raw → Action World Exn Unit
  pub embed : String → Action World Exn Vector
  pub search :
      String
      → Vector
      → ℤ
      → Option String
      → World
      → Outcome (List (QueryResult Score Json)) Exn × World
  pub publish_usage : String → ℕ → Bool → World → World
  pub publish_metadata :
      String
      → String
      → String
      → ℤ
      → Option String
      → String
      → Bool
      → List (RetrievedChunk Score)
      → World
      → World
  pub ge_score : Score → Score → Bool
  pub dumps_key : KeyFields → Bytes
  pub sha256_hex : Bytes → String
  pub dumps : List (QueryResult Score Json) → Raw
  pub loads : Raw → Option (List (QueryResult Score Json))

pub record Service (b : Backends) : Type 0 where
  pub world : b.World
  pub breaker : CircuitBreaker

abbrev pub collection_of : String → String
collection_of tenant_id = tenant_id ++ "_docs"

-- `hits[: top_k]`; a negative bound counts from the end.
abbrev pub slice_to {ℓ} : {A : Type ℓ} → ℤ → List A → List A
slice_to (pos n) xs = take n xs
slice_to (negsuc n) xs = take (length xs - (n + 1)) xs

-- What `query` makes the key of.
abbrev pub key_fields : {Score : Type 0} → QueryRequest Score → String → KeyFields
key_fields request tenant_id = record {
  col = collection_of tenant_id;
  k = request.top_k;
  q = request.query;
  sf = request.source_filter;
}

module _ (b : Backends) (ttl_seconds : ℕ) where
  -- `_make_cache_key`
  abbrev pub make_cache_key : KeyFields → String
  make_cache_key fields = "rag:" ++ b.sha256_hex (b.dumps_key fields)

  -- `[... for h in hits if h.score >= request.min_score]`
  abbrev pub at_least :
      b.Score → List (QueryResult b.Score b.Json) → List (QueryResult b.Score b.Json)
  at_least min_score [] = []
  at_least min_score (h ∷ hits) =
      if b.ge_score h.score min_score then h ∷ at_least min_score hits else at_least min_score hits

  abbrev pub ranked : ℕ → List (QueryResult b.Score b.Json) → List (RetrievedChunk b.Score)
  ranked i [] = []
  ranked i (r ∷ rs) =
      record { entity_key = r.chunk_id; rank = i + 1; score = r.score } ∷ ranked (i + 1) rs

  abbrev pub lift_world : {A : Type 0} → Action b.World Exn A → Action (Service b) Exn A
  lift_world m s = let (r, w) = m s.world in (r, record s { world = w })

  -- Both publishers; what they raise is dropped.
  abbrev pub publish :
      QueryRequest b.Score
      → String
      → String
      → Bool
      → List (QueryResult b.Score b.Json)
      → Action (Service b) Exn Unit
  publish request tenant_id request_id cached results =
      modify (λ s. record s { world = b.publish_usage tenant_id (length results) cached s.world })
      >> modify (λ s. record s {
        world =
            b.publish_metadata request_id tenant_id request.query request.top_k
              request.source_filter (collection_of tenant_id) cached (ranked 0 results) s.world;
      })

  abbrev pub cache_key : QueryRequest b.Score → String → String
  cache_key request tenant_id = make_cache_key (key_fields request tenant_id)

  abbrev decode : b.Raw → Action (Service b) Exn (List (QueryResult b.Score b.Json))
  decode cached_raw = elim (b.loads cached_raw) [ some rs ↦ pure rs | none ↦ raise other_error ]

  -- The cache check: what was found, and whether the cache is available. An answer that does not
  -- decode raises; only a connection error is caught.
  unfoldable pub check_cache :
      QueryRequest b.Score
      → String
      → Action (Service b) Exn (Option (List (QueryResult b.Score b.Json)) × Bool)
  check_cache request tenant_id =
      try_except
        (lift_world (b.get (cache_key request tenant_id)) >>= λ cached_raw. elim cached_raw [
          | some raw ↦ decode raw >>= λ rs. pure (some rs, true)
          | none ↦ pure (none, true)
        ])
        (λ e. elim e [ connection_error ↦ pure (none, false) | other ↦ raise other ])

  -- The search behind the circuit breaker, whose every failure becomes a `ServiceUnavailableError`.
  unfoldable pub guarded_search :
      QueryRequest b.Score
      → String
      → b.Vector
      → Action (Service b) Exn (List (QueryResult b.Score b.Json))
  guarded_search request tenant_id vector s =
      let (outcome, w, breaker) =
        call b.clock (b.search (collection_of tenant_id) vector request.top_k request.source_filter)
          s.world s.breaker in
      let s' : Service b = record { world = w; breaker = breaker } in
      elim outcome [
        | returned hits ↦ (ok hits, s')
        | raised_open ↦ (err service_unavailable_error, s')
        | raised e ↦ (err service_unavailable_error, s')
      ]

  -- Storing the results; only a connection error is caught.
  unfoldable pub store :
      Bool
      → QueryRequest b.Score
      → String
      → List (QueryResult b.Score b.Json)
      → Action (Service b) Exn Unit
  store false request tenant_id results = pure tt
  store true request tenant_id results =
      try_except (lift_world (b.setex (cache_key request tenant_id) ttl_seconds (b.dumps results)))
        (λ e. elim e [ connection_error ↦ pure tt | other ↦ raise other ])

  -- What `query` does with the hits: cut, filter, store, publish.
  unfoldable pub complete :
      QueryRequest b.Score
      → String
      → String
      → Bool
      → List (QueryResult b.Score b.Json)
      → Action (Service b) Exn (QueryResponse b.Score b.Json)
  unfolding store
  complete request tenant_id request_id cache_available hits =
      let results = at_least request.min_score (slice_to request.top_k hits) in
      store cache_available request tenant_id results >>= λ _.
      publish request tenant_id request_id false results >>= λ _.
      pure (record { results = results; cached = false; request_id = request_id })

  -- What `query` does on a miss.
  unfoldable pub answer_fresh :
      QueryRequest b.Score
      → String
      → String
      → Bool
      → Action (Service b) Exn (QueryResponse b.Score b.Json)
  unfolding guarded_search complete
  answer_fresh request tenant_id request_id cache_available =
      lift_world (b.embed request.query) >>= λ vector.
      guarded_search request tenant_id vector
      >>= complete request tenant_id request_id cache_available

  -- What `query` does with what the cache check found.
  unfoldable pub respond :
      QueryRequest b.Score
      → String
      → String
      → Option (List (QueryResult b.Score b.Json)) × Bool
      → Action (Service b) Exn (QueryResponse b.Score b.Json)
  unfolding answer_fresh
  respond request tenant_id request_id (some rs, available) =
      publish request tenant_id request_id true rs
      >> pure (record { results = rs; cached = true; request_id = request_id })
  respond request tenant_id request_id (none, available) =
      answer_fresh request tenant_id request_id available

  unfoldable pub query :
      QueryRequest b.Score → String → Action (Service b) Exn (QueryResponse b.Score b.Json)
  unfolding check_cache respond
  query request tenant_id s =
      (check_cache request tenant_id >>= respond request tenant_id (b.uuid4 s.world)) s

  -- `query_endpoint`: the status of the HTTP answer, where an exception not caught is a 500.
  abbrev pub status_code : Result Exn (QueryResponse b.Score b.Json) → ℕ
  status_code (ok _) = 200
  status_code (err service_unavailable_error) = 503
  status_code (err _) = 500
