-- ===== src/Sql/Chunks.antt =====
-- The embedder's statements on `document_chunks`.
use digital_cip.Prelude.{
  ℕ, ℤ, Bool, true, false, Option, none, some, List, [], ◌∷◌, eq_ℤ, leb_ℤ, if◌then◌else◌,
}
use mathlib.Core.Bool.{◌&&◌}
use digital_cip.Tables.{Vector, Chunk}
use digital_cip.Sql.Statements.{has_id}

-- `embedding IS NULL`
unfoldable pub is_missing : Chunk → Bool
is_missing c = elim c.embedding [ none ↦ true | some v ↦ false ]

-- `ORDER BY position`; positions are unique within a document.
unfoldable pub insert_by_position : Chunk → List Chunk → List Chunk
insert_by_position c [] = c ∷ []
insert_by_position c (d ∷ ds) =
    if leb_ℤ c.position d.position then c ∷ d ∷ ds else d ∷ insert_by_position c ds

-- `SELECT … WHERE document_id = key AND embedding IS NULL ORDER BY position`
unfoldable pub select_missing : Option ℤ → List Chunk → List Chunk
unfolding is_missing insert_by_position
select_missing key [] = []
select_missing key (c ∷ cs) =
    let rest = select_missing key cs in
    if has_id key c.document_id && is_missing c then insert_by_position c rest else rest

-- `UPDATE document_chunks SET embedding = v, updated_at = NOW() WHERE id = id`
unfoldable pub set_embedding : ℕ → ℤ × Vector → List Chunk → List Chunk
set_embedding now (id, v) [] = []
set_embedding now (id, v) (c ∷ cs) =
    (if eq_ℤ id c.id then record c { embedding = some v; updated_at = now } else c)
    ∷ set_embedding now (id, v) cs

-- `executemany`
unfoldable pub set_embeddings : ℕ → List (ℤ × Vector) → List Chunk → List Chunk
unfolding set_embedding
set_embeddings now [] cs = cs
set_embeddings now (row ∷ rows) cs = set_embeddings now rows (set_embedding now row cs)
