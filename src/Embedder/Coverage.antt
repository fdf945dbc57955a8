-- ===== src/Embedder/Coverage.antt =====
-- The chunks that are without an embedding after the embedder has written its vectors.
use digital_cip.Prelude.{
  ◌≡◌, refl, ◌∙◌, ap, ℕ, ℤ, Bool, true, false, Option, some, List, [], ◌∷◌, length, All, eq_ℤ,
  eq_ℤ_refl, leb_ℤ, arith, Bool-cases, inl, inr, ◌||◌, if◌then◌else◌,
}
use mathlib.Core.Bool.{◌&&◌}
use digital_cip.Tables.{Vector, Chunk}
use digital_cip.Sql.Statements.{has_id}
use digital_cip.Sql.Chunks.{
  is_missing, insert_by_position, select_missing, set_embedding, set_embeddings,
}
use digital_cip.Embedder.Handle.{rows_of}

-- one UPDATE on one row, and all of them
abbrev step : ℕ → ℤ × Vector → Chunk → Chunk
step now (id, v) c = if eq_ℤ id c.id then record c { embedding = some v; updated_at = now } else c

abbrev steps : ℕ → List (ℤ × Vector) → Chunk → Chunk
steps now [] c = c
steps now (row ∷ rows) c = steps now rows (step now row c)

abbrev has_row : ℤ → List (ℤ × Vector) → Bool
has_row id [] = false
has_row id (row ∷ rows) = eq_ℤ row.0 id || has_row id rows

abbrev has_chunk : ℤ → List Chunk → Bool
has_chunk id [] = false
has_chunk id (c ∷ cs) = eq_ℤ c.id id || has_chunk id cs

set_embeddings-cons :
    (now : ℕ) (rows : List (ℤ × Vector)) (c : Chunk) (cs : List Chunk)
    → set_embeddings now rows (c ∷ cs) ≡ steps now rows c ∷ set_embeddings now rows cs
unfolding set_embeddings set_embedding
set_embeddings-cons now [] c cs = refl
set_embeddings-cons now ((id, v) ∷ rows) c cs = set_embeddings-cons now rows _ _

set_embeddings-nil : (now : ℕ) (rows : List (ℤ × Vector)) → set_embeddings now rows [] ≡ []
unfolding set_embeddings set_embedding
set_embeddings-nil now [] = refl
set_embeddings-nil now ((id, v) ∷ rows) = set_embeddings-nil now rows

-- A row that has an embedding keeps one.
steps-full :
    (now : ℕ) (rows : List (ℤ × Vector)) (c : Chunk)
    → is_missing c ≡ false
    → is_missing (steps now rows c) ≡ false
unfolding is_missing
steps-full now [] c h = h
steps-full now ((id, v) ∷ rows) c h = elim (Bool-cases (eq_ℤ id c.id)) [
  | inl e ↦ rw e (steps-full now rows _ refl)
  | inr e ↦ rw e (steps-full now rows c h)
]

steps-named :
    (now : ℕ) (rows : List (ℤ × Vector)) (c : Chunk)
    → has_row c.id rows ≡ true
    → is_missing (steps now rows c) ≡ false
unfolding is_missing
steps-named now [] c h = ground arith
steps-named now ((id, v) ∷ rows) c h = elim (Bool-cases (eq_ℤ id c.id)) [
  | inl e ↦ rw e (steps-full now rows _ refl)
  | inr e ↦ rw e (steps-named now rows c (rw e at h))
]

steps-document :
    (now : ℕ) (rows : List (ℤ × Vector)) (c : Chunk)
    → (steps now rows c).document_id ≡ c.document_id
steps-document now [] c = refl
steps-document now ((id, v) ∷ rows) c = elim (Bool-cases (eq_ℤ id c.id)) [
  | inl e ↦ rw (steps, e) (steps-document now rows _)
  | inr e ↦ rw (steps, e) (steps-document now rows c)
]

has_row-rows_of :
    (id : ℤ) (cs : List Chunk) (vs : List Vector)
    → length vs ≡ length cs
    → has_row id (rows_of cs vs) ≡ has_chunk id cs
unfolding rows_of
has_row-rows_of id [] vs h = refl
has_row-rows_of id (c ∷ cs) [] h = ground arith
has_row-rows_of id (c ∷ cs) (v ∷ vs) h =
    ap (λ b. eq_ℤ c.id id || b) (has_row-rows_of id cs vs (ground arith))

has_chunk-insert :
    (id : ℤ) (c : Chunk) (cs : List Chunk)
    → has_chunk id (insert_by_position c cs) ≡ (eq_ℤ c.id id || has_chunk id cs)
unfolding insert_by_position
has_chunk-insert id c [] = refl
has_chunk-insert id c (d ∷ ds) = elim (Bool-cases (leb_ℤ c.position d.position)) [
  | inl e ↦ rw e
  | inr e ↦ rw e (ground (arith, has_chunk-insert id c ds))
]

-- the WHERE clause
abbrev wanted : Option ℤ → Chunk → Bool
wanted key c = has_id key c.document_id && is_missing c

wanted-steps :
    (key : Option ℤ) (now : ℕ) (rows : List (ℤ × Vector)) (c : Chunk)
    → (wanted key c ≡ true → has_row c.id rows ≡ true)
    → wanted key (steps now rows c) ≡ false
wanted-steps key now rows c h = elim (Bool-cases (has_id key c.document_id)) [
  | inr e ↦ rw (steps-document now rows c, e)
  | inl e ↦ elim (Bool-cases (is_missing c)) [
    | inl m ↦ rw (steps-document now rows c, e, steps-named now rows c (h (rw (e, m))))
    | inr m ↦ rw (steps-document now rows c, e, steps-full now rows c m)
  ]
]

select-set_embeddings :
    (key : Option ℤ) (now : ℕ) (rows : List (ℤ × Vector)) (cs : List Chunk)
    → All (λ c. wanted key c ≡ true → has_row c.id rows ≡ true) cs
    → select_missing key (set_embeddings now rows cs) ≡ []
unfolding select_missing
select-set_embeddings key now rows [] h = rw (set_embeddings-nil now rows, select_missing)
select-set_embeddings key now rows (c ∷ cs) h = rw (
  set_embeddings-cons now rows c cs,
  wanted-steps key now rows c h.0,
  select-set_embeddings key now rows cs h.1,
)

or-true : (b : Bool) → (b || true) ≡ true
or-true true = refl
or-true false = refl

has_chunk-select :
    (key : Option ℤ) (c : Chunk) (cs : List Chunk) (id : ℤ)
    → has_chunk id (select_missing key cs) ≡ true
    → has_chunk id (select_missing key (c ∷ cs)) ≡ true
unfolding select_missing
has_chunk-select key c cs id h = elim (Bool-cases (wanted key c)) [
  | inl e ↦ rw (e, has_chunk-insert id c (select_missing key cs), h, or-true)
  | inr e ↦ rw e h
]

wanted-select :
    (key : Option ℤ) (c : Chunk) (cs : List Chunk)
    → wanted key c ≡ true
    → has_chunk c.id (select_missing key (c ∷ cs)) ≡ true
unfolding select_missing
wanted-select key c cs e = rw (e, has_chunk-insert c.id c (select_missing key cs), eq_ℤ_refl c.id)

All-found :
    (key : Option ℤ) (found cs : List Chunk)
    → ((id : ℤ) → has_chunk id (select_missing key cs) ≡ true → has_chunk id found ≡ true)
    → All (λ c. wanted key c ≡ true → has_chunk c.id found ≡ true) cs
All-found key found [] h = tt
All-found key found (c ∷ cs) h = (
  λ e. h c.id (wanted-select key c cs e),
  All-found key found cs λ id p. h id (has_chunk-select key c cs id p),
)

-- If the model returns a vector for each text, then after the rows that the worker makes of the
-- selected chunks are written, no chunk of the document is without an embedding: the same query
-- finds none.
pub select_missing-set_embeddings :
    (key : Option ℤ) (now : ℕ) (cs : List Chunk) (vs : List Vector)
    → length vs ≡ length (select_missing key cs)
    → select_missing key (set_embeddings now (rows_of (select_missing key cs) vs) cs) ≡ []
select_missing-set_embeddings key now cs vs h =
    select-set_embeddings key now (rows_of (select_missing key cs) vs) cs (
      All-found_rows (select_missing key cs) vs h cs
        (All-found key (select_missing key cs) cs λ id p. p))
  where
    All-found_rows :
        (found : List Chunk) (vs : List Vector)
        → length vs ≡ length found
        → (cs : List Chunk) → All (λ c. wanted key c ≡ true → has_chunk c.id found ≡ true) cs
        → All (λ c. wanted key c ≡ true → has_row c.id (rows_of found vs) ≡ true) cs
    All-found_rows found vs same [] all = tt
    All-found_rows found vs same (c ∷ cs) all =
        (λ e. has_row-rows_of c.id found vs same ∙ all.0 e, All-found_rows found vs same cs all.1)
