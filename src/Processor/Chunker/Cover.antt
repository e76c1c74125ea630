-- ===== src/Processor/Chunker/Cover.antt =====
-- The chunks are the windows of the tokens, in order, and lose nothing.
use aidata_pipeline.Prelude.{
  ℕ, zero, suc, ◌+◌, ◌-◌, ◌≤◌, ◌<◌, min, max, ◌≡◌, ap, ◌∙◌, String, List, [], ◌∷◌, length, take,
  drop, All, arith, length-drop, lt→ltb, ◌==◌, Bool-cases, inl, inr,
}
use aidata_pipeline.Processor.Chunker.{Chunk, Encoding, slice, make_chunk, chunk_loop, chunk}
use aidata_pipeline.Processor.Chunker.Windows.{
  Windows, last, more, rejoin, Windows-rejoin, Windows-sizes, take_all, drop-drop,
}

module _ {Token : Type 0} (enc : Encoding Token) (str : ℕ → String) where
  -- The chunks of consecutive windows, numbered from `index`.
  abbrev pub label : String → ℕ → List (List Token) → List Chunk
  label doc_id index [] = []
  label doc_id index (w ∷ ws) = make_chunk enc str w index doc_id ∷ label doc_id (index + 1) ws

  chunk_loop-Windows :
      (size step fuel : ℕ) (tokens : List Token) (doc_id : String) (start index : ℕ)
      → 0 < step
      → step ≤ size
      → start < length tokens
      → length tokens ≤ start + fuel
      → (ws : List (List Token)) × Windows size step (drop start tokens) ws
        × (chunk_loop enc str size step fuel tokens doc_id start index ≡ label doc_id index ws)
  unfolding chunk_loop
  chunk_loop-Windows size step zero tokens doc_id start index pos le lt enough =
      absurd (omega arith)
  chunk_loop-Windows size step (suc fuel) tokens doc_id start index pos le lt enough =
      let stop = min (start + size) (length tokens) in
      elim (Bool-cases (stop == length tokens)) [
        | inl ends ↦
            let whole : slice start stop tokens ≡ drop start tokens =
              take_all (stop - start) (drop start tokens)
                (ground (arith, length-drop start tokens)) in
            (
              drop start tokens ∷ [],
              last (ground (arith, length-drop start tokens)),
              rw (lt→ltb start (length tokens) lt, ends, whole),
            )
        | inr goes_on ↦
            let (ws, w, e) =
              chunk_loop-Windows size step fuel tokens doc_id (start + step) (index + 1) pos le
                (ground arith) (ground arith) in
            let full : slice start stop tokens ≡ take size (drop start tokens) =
              ap (λ n. take n (drop start tokens)) (ground arith) in
            (
              take size (drop start tokens) ∷ ws,
              more (ground (arith, length-drop start tokens)) (rw (drop-drop start step tokens) w),
              rw (lt→ltb start (length tokens) lt, goes_on, full, e),
            )
      ]

  -- For a text with tokens, a positive chunk size and a smaller overlap, the chunks are the windows
  -- of the tokens, numbered from 0; each window has at most `chunk_size` tokens, and the windows
  -- with their overlaps taken off are the tokens of the text, in order and with none lost.
  pub chunk_covers :
      (chunk_size overlap : ℕ) (text doc_id : String)
      → 0 < length (enc.encode text)
      → overlap < chunk_size
      → (ws : List (List Token)) × (chunk enc str chunk_size overlap text doc_id
          ≡ label doc_id 0 ws)
        × Windows chunk_size (chunk_size - overlap) (enc.encode text) ws
        × (rejoin chunk_size (chunk_size - overlap) ws ≡ enc.encode text)
        × All (λ w. length w ≤ chunk_size) ws
  unfolding chunk
  chunk_covers chunk_size overlap text doc_id some_tokens smaller =
      let tokens = enc.encode text in
      let step : max 1 (chunk_size - overlap) ≡ chunk_size - overlap = omega arith in
      let (ws, w, e) =
        chunk_loop-Windows chunk_size (chunk_size - overlap) (length tokens) tokens doc_id 0 0
          (omega arith) (omega arith) some_tokens (omega arith) in
      (
        ws,
        ap (λ n. chunk_loop enc str chunk_size n (length tokens) tokens doc_id 0 0) step ∙ e,
        w,
        Windows-rejoin chunk_size (chunk_size - overlap) (omega arith) w,
        Windows-sizes chunk_size (chunk_size - overlap) w,
      )

  -- No chunk is cut from a text without tokens.
  pub chunk_empty :
      (chunk_size overlap : ℕ) (text doc_id : String)
      → enc.encode text ≡ []
      → chunk enc str chunk_size overlap text doc_id ≡ []
  unfolding chunk
  chunk_empty chunk_size overlap text doc_id e = rw e
