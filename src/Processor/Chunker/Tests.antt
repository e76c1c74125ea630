-- ===== src/Processor/Chunker/Tests.antt =====
-- The chunker on a text of seven one-letter tokens.
use Prim.Native.Char.{Char}
use Prim.Native.String.{String}
use aidata_pipeline.Prelude.{ℕ, ◌-◌, ◌≤◌, ◌≡◌, refl, List, [], ◌∷◌, map, length, All, arith}
use aidata_pipeline.Processor.Chunker.{Chunk, Encoding, chunk, make_chunk}
use aidata_pipeline.Processor.Chunker.Windows.{Windows, rejoin}
use aidata_pipeline.Processor.Chunker.Cover.{label, chunk_covers}

chars : String → List Char
chars String.[] = []
chars (String.◌∷◌ c s) = c ∷ chars s

unchars : List Char → String
unchars [] = String.[]
unchars (c ∷ cs) = String.◌∷◌ c (unchars cs)

abbrev letters : Encoding Char
letters = record { encode = chars; decode = unchars }

abbrev str : ℕ → String
str n = "#"

chunk_runs :
    map (λ (c : Chunk). c.text) (chunk letters str 4 1 "abcdefg" "doc") ≡ "abcd" ∷ "defg" ∷ []
unfolding chunk chars unchars make_chunk
chunk_runs = refl

chunk_runs_full :
    map (λ (c : Chunk). c.token_count) (chunk letters str 3 1 "abcdefg" "doc") ≡ 3 ∷ 3 ∷ 3 ∷ []
unfolding chunk chars unchars make_chunk
chunk_runs_full = refl

chunk_covers_example :
    (ws : List (List Char)) × (chunk letters str 4 1 "abcdefg" "doc" ≡ label letters str "doc" 0 ws)
    × Windows 4 (4 - 1) (chars "abcdefg") ws
    × (rejoin 4 (4 - 1) ws ≡ chars "abcdefg")
    × All (λ w. length w ≤ 4) ws
unfolding chars
chunk_covers_example = chunk_covers letters str 4 1 "abcdefg" "doc" (omega arith) (omega arith)
