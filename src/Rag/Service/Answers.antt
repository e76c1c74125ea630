-- ===== src/Rag/Service/Answers.antt =====
-- What a query answers on a miss, on a hit and when a backend fails.
use aidata_pipeline.Prelude.{
  ℕ, ◌+◌, ◌≤◌, ◌<◌, ◌≡◌, ◌⊎◌, inl, inr, String, Bool, true, false, Option, none, some, List, [],
  ◌∷◌, length, take, length-take, All, arith,
}
use aidata_pipeline.Prelude.Int.{pos}
use aidata_pipeline.Prelude.Action.{ok, err, Returned, Result-cases}
use aidata_pipeline.Rag.Breaker.{raised, open_, call}
use aidata_pipeline.Rag.Service.{
  Backends, Service, QueryRequest, QueryResult, QueryResponse, Exn, connection_error, redis_error,
  collection_of, slice_to, at_least, cache_key, query, respond, check_cache, guarded_search,
  answer_fresh, complete, status_code,
}

module _ (b : Backends) (ttl : ℕ) where
  at_least_lem :
      (m : b.Score) (xs : List (QueryResult b.Score b.Json))
      → All (λ h. b.ge_score h.score m ≡ true) (at_least b ttl m xs)
        × (length (at_least b ttl m xs) ≤ length xs)
  at_least_lem m [] = ground arith
  at_least_lem m (x ∷ xs) = ground (arith, at_least_lem m xs)

  -- What is asked of an answer that is not from the cache.
  pub AsRequested : QueryRequest b.Score → QueryResponse b.Score b.Json → Type 0
  AsRequested request response =
      response.cached ≡ false
      → All (λ h. b.ge_score h.score request.min_score ≡ true) response.results
        × ((k : ℕ) → request.top_k ≡ pos k → length response.results ≤ k)

  module _ (request : QueryRequest b.Score) (tenant : String) where
    complete-AsRequested :
        (request_id : String) (available : Bool) (hits : List (QueryResult b.Score b.Json))
        (s : Service b)
        → Returned
            (λ response s'. AsRequested request response)
            (complete b ttl request tenant request_id available hits s)
    unfolding complete AsRequested
    complete-AsRequested request_id available hits s =
        let cut = slice_to request.top_k hits in
        let kept = at_least_lem request.min_score cut in
        let short : (k : ℕ)
            → request.top_k ≡ pos k
            → length (at_least b ttl request.min_score cut) ≤ k =
          λ k e.
            ground (arith, e, length-take k hits, at_least_lem request.min_score (take k hits)) in
        ground (arith, kept, short)

    answer-AsRequested :
        (request_id : String) (available : Bool) (s : Service b)
        → Returned
            (λ response s'. AsRequested request response)
            (answer_fresh b ttl request tenant request_id available s)
    unfolding answer_fresh
    answer-AsRequested request_id available s =
        elim (Result-cases (b.embed request.query s.world).0) [
          | inl (v, e) ↦
              let s' : Service b = record s { world = (b.embed request.query s.world).1 } in
              let searched = guarded_search b ttl request tenant v s' in
              elim (Result-cases searched.0) [
                | inl (hits, f) ↦
                    ground (arith, complete-AsRequested request_id available hits searched.1)
                | inr (x, f) ↦ ground arith
              ]
          | inr (x, e) ↦ ground arith
        ]

    respond-AsRequested :
        (request_id : String) (found : Option (List (QueryResult b.Score b.Json)) × Bool)
        (s : Service b)
        → Returned
            (λ response s'. AsRequested request response)
            (respond b ttl request tenant request_id found s)
    unfolding respond AsRequested
    respond-AsRequested request_id (some rs, available) s = ground arith
    respond-AsRequested request_id (none, available) s = answer-AsRequested request_id available s

  -- An answer not from the cache holds hits of at least the score asked for, whatever `top_k` is,
  -- and when `top_k` is not negative, at most `top_k` of them.
  pub fresh-AsRequested :
      (request : QueryRequest b.Score) (tenant : String) (s : Service b)
      → Returned (λ response s'. AsRequested request response) (query b ttl request tenant s)
  unfolding query
  fresh-AsRequested request tenant s =
      let checked = check_cache b ttl request tenant s in
      elim (Result-cases checked.0) [
        | inl (found, e) ↦
            ground (arith, respond-AsRequested request tenant (b.uuid4 s.world) found checked.1)
        | inr (x, e) ↦ ground arith
      ]

  -- A hit is answered with all that is stored, whatever `min_score` the request has: the least
  -- score is not part of the key.
  pub hit_ignores_min_score :
      (request : QueryRequest b.Score) (tenant : String) (raw : b.Raw)
      (rs : List (QueryResult b.Score b.Json)) (m : b.Score) (s : Service b)
      → (b.get (cache_key b ttl request tenant) s.world).0 ≡ ok (some raw)
      → b.loads raw ≡ some rs
      → (query b ttl (record request { min_score = m }) tenant s).0
        ≡ ok (record { results = rs; cached = true; request_id = b.uuid4 s.world })
  unfolding query
  hit_ignores_min_score request tenant raw rs m s h d = ground arith

  -- Redis is not optional: when it refuses the read, or the write after a search, with an error of
  -- its client, which is not the builtin `ConnectionError` that is caught, the query fails with a
  -- 500. After a refused read nothing is embedded or searched, and the breaker is left alone; after
  -- a refused write the results that were found are not answered, and nothing is published.
  pub refused_by_redis :
      (request : QueryRequest b.Score) (tenant : String) (v : b.Vector)
      (hits : List (QueryResult b.Score b.Json)) (s : Service b)
      → let (r, w) = b.get (cache_key b ttl request tenant) s.world in
        let (e, w') = b.embed request.query w in
        let found = guarded_search b ttl request tenant v (record s { world = w' }) in
        let results = at_least b ttl request.min_score (slice_to request.top_k hits) in
        let (x, w'') =
          b.setex (cache_key b ttl request tenant) ttl (b.dumps results) found.1.world in
        let (result, s') = query b ttl request tenant s in
        (r ≡ err redis_error)
          ⊎ ((r ≡ ok none) × (e ≡ ok v) × (found.0 ≡ ok hits) × (x ≡ err redis_error))
        → (status_code b ttl result ≡ 500)
          × (((r ≡ err redis_error) × (s' ≡ record s { world = w }))
              ⊎ ((r ≡ ok none) × (s' ≡ record found.1 { world = w'' })))
  unfolding query
  refused_by_redis request tenant v hits s (inl down) = ground arith
  refused_by_redis request tenant v hits s (inr (miss, e, f, down)) = ground arith

  -- While the breaker is open, a query that the cache does not answer is a 503, and Milvus is left
  -- alone: the world is as embedding the query left it. Any failure of the search is a 503 too.
  pub search_failure_is_503 :
      (request : QueryRequest b.Score) (tenant : String) (v : b.Vector) (s : Service b)
      → let (r, w) = b.get (cache_key b ttl request tenant) s.world in
        let (e, w') = b.embed request.query w in
        let (result, s') = query b ttl request tenant s in
        (r ≡ err connection_error) ⊎ (r ≡ ok none)
        → e ≡ ok v
        → (s.breaker.state ≡ open_
            → b.clock w' < s.breaker.opened_at + s.breaker.recovery_timeout
            → (status_code b ttl result ≡ 503) × (s'.world ≡ w') × (s'.breaker ≡ s.breaker))
          × ((x : Exn)
              → (b.search (collection_of tenant) v request.top_k request.source_filter w').0
                ≡ raised x
              → status_code b ttl result ≡ 503)
  unfolding query call
  search_failure_is_503 request tenant v s (inl down) e = (λ o h. ground arith, λ x h. ground arith)
  search_failure_is_503 request tenant v s (inr miss) e = (λ o h. ground arith, λ x h. ground arith)
