-- ===== src/Rag/Service/Isolation.antt =====
-- A tenant is answered from its own collection only, also by way of the cache.
use text.Mathlib.TextLemmas.{append_cancel_left}
use aidata_pipeline.Prelude.{
  ℕ, zero, suc, ◌+◌, ◌-◌, ◌≡◌, inl, inr, String, Bool, true, false, Option, none, some, List, [],
  ◌∷◌, length, take, All, ap, arith, Option-cases,
}
use aidata_pipeline.Prelude.Int.{ℤ, pos, negsuc}
use aidata_pipeline.Prelude.Action.{Returned, ◌>>=◌, Keeps, >>=-Keeps, Result-cases}
use aidata_pipeline.Rag.Breaker.{call}
use aidata_pipeline.Rag.Service.{
  KeyFields, key_fields, make_cache_key, Backends, Service, QueryRequest, QueryResult,
  QueryResponse, collection_of, slice_to, at_least, cache_key, query, respond, check_cache,
  guarded_search, store, answer_fresh, complete, publish, ranked, lift_world,
}
use aidata_pipeline.Rag.Service.Reliance.{Gained, Found, BackendLaws, NoCollision}

module _ {b : Backends} (laws : BackendLaws b) (ttl : ℕ) (Asked : KeyFields → Type 0)
    (distinct : NoCollision b Asked) where
  -- What the cache holds for a query that is asked decodes to results of the query's collection.
  unfoldable pub Sound : b.World → Type 0
  Sound w =
      (f : KeyFields) (raw : b.Raw) (rs : List (QueryResult b.Score b.Json))
      → Asked f
      → laws.held w (make_cache_key b ttl f) ≡ some raw
      → b.loads raw ≡ some rs
      → All (laws.Belongs f.col) rs

  -- Two queries that are asked and share a key are of one collection.
  same_collection :
      (f g : KeyFields)
      → Asked f
      → Asked g
      → make_cache_key b ttl f ≡ make_cache_key b ttl g
      → f.col ≡ g.col
  same_collection f g a a' e =
      ap (λ x. x.col)
        (laws.dumps_key-injective f g (distinct f g a a' (append_cancel_left "rag:" _ _ e)))

  Gained-Sound : (w w' : b.World) → Gained laws.held w w' → Sound w → Sound w'
  unfolding Sound
  Gained-Sound w w' g s f raw rs a h = s f raw rs a (g (make_cache_key b ttl f) raw h)

  take-All :
      (P : QueryResult b.Score b.Json → Type 0) (n : ℕ) (xs : List (QueryResult b.Score b.Json))
      → All P xs
      → All P (take n xs)
  take-All P zero xs h = tt
  take-All P (suc n) [] h = tt
  take-All P (suc n) (x ∷ xs) h = (h.0, take-All P n xs h.1)

  slice_to-All :
      (P : QueryResult b.Score b.Json → Type 0) (n : ℤ) (xs : List (QueryResult b.Score b.Json))
      → All P xs
      → All P (slice_to n xs)
  slice_to-All P (pos n) xs h = take-All P n xs h
  slice_to-All P (negsuc n) xs h = take-All P (length xs - (n + 1)) xs h

  at_least-All :
      (P : QueryResult b.Score b.Json → Type 0) (m : b.Score)
      (xs : List (QueryResult b.Score b.Json))
      → All P xs
      → All P (at_least b ttl m xs)
  at_least-All P m [] h = tt
  at_least-All P m (x ∷ xs) h = ground (arith, at_least-All P m xs)

  check_cache-Sound :
      (request : QueryRequest b.Score) (tenant : String) (s : Service b)
      → Asked (key_fields request tenant)
      → Sound s.world
      → Sound (check_cache b ttl request tenant s).1.world
        × Returned
            (λ v s'. Found (laws.Belongs (collection_of tenant)) v.0)
            (check_cache b ttl request tenant s)
  unfolding check_cache Sound
  check_cache-Sound request tenant s asked h =
      let key = cache_key b ttl request tenant in
      let kept = Gained-Sound s.world (b.get key s.world).1 (laws.get_keeps key s.world) h in
      elim (Result-cases (b.get key s.world).0) [
        | inl (none, e) ↦ ground (arith, kept)
        | inl (some raw, e) ↦ elim (Option-cases (b.loads raw)) [
          | inl d ↦ ground (arith, kept)
          | inr (rs, d) ↦ ground (
            arith,
            kept,
            h (key_fields request tenant) raw rs asked (laws.get_held key raw s.world e) d,
          )
        ]
        | inr (x, e) ↦ ground (arith, kept)
      ]

  guarded_search-Sound :
      (request : QueryRequest b.Score) (tenant : String) (v : b.Vector) (s : Service b)
      → Sound s.world
      → Sound (guarded_search b ttl request tenant v s).1.world
        × Returned
            (λ hits s'. All (laws.Belongs (collection_of tenant)) hits)
            (guarded_search b ttl request tenant v s)
  unfolding guarded_search call
  guarded_search-Sound request tenant v s h =
      let searched =
        b.search (collection_of tenant) v request.top_k request.source_filter s.world in
      let kept = Gained-Sound s.world searched.1 (laws.search_keeps _ v _ _ s.world) h in
      ground (
        arith,
        h,
        kept,
        laws.search_hits (collection_of tenant) v request.top_k request.source_filter s.world,
      )

  store-Sound :
      (available : Bool) (request : QueryRequest b.Score) (tenant : String) (s : Service b)
      (rs : List (QueryResult b.Score b.Json))
      → Asked (key_fields request tenant)
      → All (laws.Belongs (collection_of tenant)) rs
      → Sound s.world
      → Sound (store b ttl available request tenant rs s).1.world
  unfolding store Sound
  store-Sound false request tenant s rs asked a h f raw rs' u held_after decoded =
      h f raw rs' u held_after decoded
  store-Sound true request tenant s rs asked a h f raw rs' u held_after decoded =
      elim (laws.setex_held (cache_key b ttl request tenant) ttl (b.dumps rs) s.world
        (make_cache_key b ttl f) raw
        (elim (Result-cases (b.setex (cache_key b ttl request tenant) ttl (b.dumps rs) s.world).0) [
          | inl (x, e) ↦ ground (arith, held_after)
          | inr (x, e) ↦ ground (arith, held_after)
        ])) [
          | inl before ↦ h f raw rs' u before decoded
          | inr (same, own) ↦ ground (
            arith,
            a,
            own,
            laws.loads-dumps rs,
            same_collection f (key_fields request tenant) u asked same,
          )
        ]

  publish-Sound :
      (request : QueryRequest b.Score) (tenant request_id : String) (cached : Bool)
      (rs : List (QueryResult b.Score b.Json)) (s : Service b)
      → Sound s.world
      → Sound (publish b ttl request tenant request_id cached rs s).1.world
  publish-Sound request tenant request_id cached rs s h =
      let w = b.publish_usage tenant (length rs) cached s.world in
      Gained-Sound w _
        (laws.metadata_keeps w request_id tenant request.query request.top_k request.source_filter
          (collection_of tenant) cached (ranked b ttl 0 rs))
        (Gained-Sound s.world w (laws.publish_keeps s.world tenant (length rs) cached) h)

  complete-Sound :
      (request : QueryRequest b.Score) (tenant request_id : String) (available : Bool)
      (hits : List (QueryResult b.Score b.Json))
      → Asked (key_fields request tenant)
      → All (laws.Belongs (collection_of tenant)) hits
      → Keeps
          (λ s. Sound s.world)
          (λ response. All (laws.Belongs (collection_of tenant)) response.results)
          (complete b ttl request tenant request_id available hits)
  unfolding complete
  complete-Sound request tenant request_id available hits asked a s h =
      let rs = at_least b ttl request.min_score (slice_to request.top_k hits) in
      let a' = at_least-All _ request.min_score _ (slice_to-All _ request.top_k hits a) in
      let stored = store-Sound available request tenant s rs asked a' h in
      ground (
        arith,
        stored,
        a',
        publish-Sound request tenant request_id false rs
            (store b ttl available request tenant rs s).1 stored,
      )

  answer_fresh-Sound :
      (request : QueryRequest b.Score) (tenant request_id : String) (available : Bool)
      → Asked (key_fields request tenant)
      → Keeps
          (λ s. Sound s.world)
          (λ response. All (laws.Belongs (collection_of tenant)) response.results)
          (answer_fresh b ttl request tenant request_id available)
  unfolding answer_fresh
  answer_fresh-Sound request tenant request_id available asked =
      let P : Service b → Type 0 = λ s. Sound s.world in
      let Own : List (QueryResult b.Score b.Json) → Type 0 =
        λ hits. All (laws.Belongs (collection_of tenant)) hits in
      let R : QueryResponse b.Score b.Json → Type 0 = λ response. Own response.results in
      let rest = complete b ttl request tenant request_id available in
      >>=-Keeps P (λ v. Unit) R (lift_world b ttl (b.embed request.query))
        (λ v. guarded_search b ttl request tenant v >>= rest)
        (λ s h. (Gained-Sound s.world _ (laws.embed_keeps request.query s.world) h, ground arith))
        (λ v _.
          >>=-Keeps P Own R (guarded_search b ttl request tenant v) rest
            (guarded_search-Sound request tenant v)
            (λ hits. complete-Sound request tenant request_id available hits asked))

  respond-Sound :
      (request : QueryRequest b.Score) (tenant request_id : String)
      (found : Option (List (QueryResult b.Score b.Json)) × Bool)
      → Asked (key_fields request tenant)
      → Found (laws.Belongs (collection_of tenant)) found.0
      → Keeps
          (λ s. Sound s.world)
          (λ response. All (laws.Belongs (collection_of tenant)) response.results)
          (respond b ttl request tenant request_id found)
  unfolding respond
  respond-Sound request tenant request_id (some rs, available) asked a s h =
      (publish-Sound request tenant request_id true rs s h, a)
  respond-Sound request tenant request_id (none, available) asked a s h =
      answer_fresh-Sound request tenant request_id available asked s h

  -- Among queries of which no two different ones have the same SHA-256 digest, whoever asks, the
  -- cache stays sound, and an answer holds results of the collection of the tenant in the header
  -- only, whether they come from Milvus or from the cache.
  pub query_isolates :
      (request : QueryRequest b.Score) (tenant : String) (s : Service b)
      → Asked (key_fields request tenant)
      → Sound s.world
      → Sound (query b ttl request tenant s).1.world
        × Returned
            (λ response s'. All (laws.Belongs (collection_of tenant)) response.results)
            (query b ttl request tenant s)
  unfolding query
  query_isolates request tenant s asked =
      >>=-Keeps (λ s. Sound s.world) (λ found. Found (laws.Belongs (collection_of tenant)) found.0)
        (λ response. All (laws.Belongs (collection_of tenant)) response.results)
        (check_cache b ttl request tenant) _ (λ s. check_cache-Sound request tenant s asked)
        (λ found. respond-Sound request tenant (b.uuid4 s.world) found asked) s
