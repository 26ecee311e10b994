-- ===== src/Lifecycle/Fits.antt =====
-- A document and its chunks that fit each other, and the steps that touch one document only.
use rag_knowledge_platform_f.Prelude.{
  ℕ, ◌+◌, Bool, true, false, Option, none, some, List, [], ◌∷◌, ◌≡◌, ◌≢◌, subst, inl, inr, All,
  length, arith, ◌==◌, eqb→eq, Bool-cases,
}
use rag_knowledge_platform_f.Database.{Document, Chunk, Db, find_document, chunks_of, is_completed}

eqb→ne : (a b : ℕ) → (a == b) ≡ false → a ≢ b
eqb→ne a b h e = ground (arith, h, e)

module _ {V : Type 0} where
  -- The chunks of a document are numbered without a gap.
  abbrev pub IsNumbered : ℕ → List (Chunk V) → Type 0
  IsNumbered index [] = Unit
  IsNumbered index (c ∷ cs) = (c.chunk_index ≡ index) × IsNumbered (index + 1) cs

  -- A COMPLETED row counts its chunks, which are numbered from 0.
  abbrev pub Counts : Bool → Option ℕ → List (Chunk V) → Type 0
  Counts true count cs = (count ≡ some (length cs)) × IsNumbered 0 cs
  Counts false count cs = Unit

  -- Chunks belong to a stored document, and to its tenant.
  abbrev pub Fits : Option Document → List (Chunk V) → Type 0
  Fits none cs = cs ≡ []
  Fits (some d) cs =
      All (λ c. c.tenant_id ≡ d.tenant_id) cs × Counts (is_completed d.status) d.chunk_count cs

  abbrev pub FitsAt : ℕ → Db V → Type 0
  FitsAt id db = Fits (find_document id db.documents) (chunks_of id db.chunks)

  -- What a step leaves as it was still fits.
  kept_at :
      (j : ℕ) (db db' : Db V)
      → (chunks_of j db'.chunks ≡ chunks_of j db.chunks)
        × (find_document j db'.documents ≡ find_document j db.documents)
      → FitsAt j db
      → FitsAt j db'
  kept_at j db db' (chunks, row) h = rw (row, chunks) h

  -- A step on one document, if what it leaves of that fits.
  pub at_one :
      (id j : ℕ) (db db' : Db V)
      → (FitsAt id db → FitsAt id db')
      → (id ≢ j
          → (chunks_of j db'.chunks ≡ chunks_of j db.chunks)
            × (find_document j db'.documents ≡ find_document j db.documents))
      → FitsAt j db
      → FitsAt j db'
  at_one id j db db' self others h = elim (Bool-cases (id == j)) [
    | inl same ↦ subst (λ i. FitsAt i db → FitsAt i db') (eqb→eq id j same) self h
    | inr other ↦ kept_at j db db' (others (eqb→ne id j other)) h
  ]
