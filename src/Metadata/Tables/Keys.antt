-- ===== src/Metadata/Tables/Keys.antt =====
-- One entity for one key, however often it is reported.
use aidata_pipeline.Prelude.{ℕ, ◌+◌, ◌≡◌, refl, none, List, [], ◌∷◌, ◌++◌, arith, if◌then◌else◌}
use aidata_pipeline.Metadata.Tables.{
  Entity, Key, Attributes, has_key, select_id, update_key, mark_failed,
}

-- How many entities have a key.
abbrev pub count_key : Key → List Entity → ℕ
count_key key [] = 0
count_key key (e ∷ es) = (if has_key key e then 1 else 0) + count_key key es

pub count_key-append :
    (key : Key) (xs ys : List Entity)
    → count_key key (xs ++ ys) ≡ count_key key xs + count_key key ys
count_key-append key [] ys = omega arith
count_key-append key (x ∷ xs) ys = ground (arith, count_key-append key xs ys)

pub count_key-update_key :
    (key k : Key) (a : Attributes) (es : List Entity)
    → count_key key (update_key k a es) ≡ count_key key es
unfolding update_key
count_key-update_key key k a [] = refl
count_key-update_key key k a (e ∷ es) = ground (arith, count_key-update_key key k a es)

pub select_id-none : (key : Key) (es : List Entity) → select_id key es ≡ none → count_key key es ≡ 0
unfolding select_id
select_id-none key [] h = refl
select_id-none key (e ∷ es) h = ground (arith, select_id-none key es)

pub count_key-mark_failed :
    (key : Key) (id : ℕ) (es : List Entity) → count_key key (mark_failed id es) ≡ count_key key es
unfolding mark_failed
count_key-mark_failed key id [] = refl
count_key-mark_failed key id (e ∷ es) = ground (arith, count_key-mark_failed key id es)
