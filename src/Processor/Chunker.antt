-- ===== src/Processor/Chunker.antt =====
-- services/doc-processor/src/chunker.py. The tokeniser (tiktoken) and Python's `str` of an index are
-- parameters; sizes are natural numbers, and `-` stops at 0, where the source takes `max(1, ...)`.
mod Windows
pub mod Cover
mod Tests
use Prim.Native.String.{◌++◌}
use aidata_pipeline.Prelude.{
  ℕ, zero, suc, ◌+◌, ◌-◌, min, max, String, List, [], ◌∷◌, length, take, drop, ltb, ◌==◌,
  if◌then◌else◌,
}

pub record Chunk : Type 0 where
  pub text : String
  pub index : ℕ
  pub doc_id : String
  pub chunk_id : String
  pub token_count : ℕ

pub record Encoding (Token : Type 0) : Type 0 where
  pub encode : String → List Token
  pub decode : List Token → String

-- Python's `xs[start:stop]` for `start <= stop`.
abbrev pub slice {ℓ} : {A : Type ℓ} → ℕ → ℕ → List A → List A
slice start stop xs = take (stop - start) (drop start xs)

unfoldable pub step_size : ℕ → ℕ → ℕ
step_size chunk_size overlap = max 1 (chunk_size - overlap)

module _ {Token : Type 0} (enc : Encoding Token) (str : ℕ → String) where
  -- `Chunk.__init__`
  unfoldable pub make_chunk : List Token → ℕ → String → Chunk
  make_chunk tokens index doc_id = record {
    text = enc.decode tokens;
    index = index;
    doc_id = doc_id;
    chunk_id = doc_id ++ (":" ++ str index);
    token_count = length tokens;
  }

  -- The `while` loop, on the rounds left.
  pub chunk_loop : ℕ → ℕ → ℕ → List Token → String → ℕ → ℕ → List Chunk
  chunk_loop chunk_size step zero tokens doc_id start index = []
  chunk_loop chunk_size step (suc fuel) tokens doc_id start index =
      let stop = min (start + chunk_size) (length tokens) in
      let rest = chunk_loop chunk_size step fuel tokens doc_id (start + step) (index + 1) in
      if ltb start (length tokens)
      then make_chunk (slice start stop tokens) index doc_id
        ∷ (if stop == length tokens then [] else rest)
      else []

  -- Each round moves `start` forward, so there are at most as many as tokens.
  pub chunk : ℕ → ℕ → String → String → List Chunk
  unfolding chunk_loop step_size
  chunk chunk_size overlap text doc_id =
      let tokens = enc.encode text in
      chunk_loop chunk_size (step_size chunk_size overlap) (length tokens) tokens doc_id 0 0
