-- ===== src/Lifecycle/Processing.antt =====
-- A document and its chunks behind `process` and `mark_failed`.
use rag_knowledge_platform_f.Prelude.{
  ℕ, suc, ◌+◌, none, some, List, [], ◌∷◌, ◌≡◌, ◌≢◌, refl, sym, ap, subst, inl, inr, All, length,
  Bool-cases, Option-cases,
}
use rag_knowledge_platform_f.Text.{Text}
use rag_knowledge_platform_f.Errors.{Result, ok, err, Exc, rag, parse_error}
use rag_knowledge_platform_f.Chunking.Packing.{ChunkDraft}
use rag_knowledge_platform_f.Database.{Document, Chunk, Db, find_document, chunks_of, is_completed}
use rag_knowledge_platform_f.Database.Queries.{find_document-id}
use rag_knowledge_platform_f.Ingestion.{Ports, IngestionService, chunk_rows, mark_failed, process}
use rag_knowledge_platform_f.Ingestion.Process.{
  after_error, Settles, process-Settles, mark_failed_lem,
}
use rag_knowledge_platform_f.Ingestion.Redelivery.{process_at, process_completed, process_empty}
use rag_knowledge_platform_f.Lifecycle.Fits.{IsNumbered, Fits, FitsAt}

mark_failed_missing :
    {V : Type 0} (id : ℕ) (message : Text) (db : Db V)
    → find_document id db.documents ≡ none
    → mark_failed id message db ≡ db
unfolding mark_failed
mark_failed_missing id message db missing = rw (missing, mark_failed) refl

module _ {V : Type 0} where
  IsNumbered-chunk_rows :
      (d : Document) (index id : ℕ) (rows : List (ChunkDraft × V))
      → IsNumbered index (chunk_rows d index id rows)
  unfolding chunk_rows
  IsNumbered-chunk_rows d index id [] = tt
  IsNumbered-chunk_rows d index id (row ∷ rows) =
      (refl, IsNumbered-chunk_rows d (index + 1) (id + 1) rows)

  length-chunk_rows :
      (d : Document) (index id : ℕ) (rows : List (ChunkDraft × V))
      → length (chunk_rows d index id rows) ≡ length rows
  unfolding chunk_rows
  length-chunk_rows d index id [] = refl
  length-chunk_rows d index id (row ∷ rows) = ap suc (length-chunk_rows d (index + 1) (id + 1) rows)

  chunk_rows_own :
      (d : Document) (index id : ℕ) (rows : List (ChunkDraft × V))
      → All (λ (c : Chunk V). c.tenant_id ≡ d.tenant_id) (chunk_rows d index id rows)
  unfolding chunk_rows
  chunk_rows_own d index id [] = tt
  chunk_rows_own d index id (row ∷ rows) = (refl, chunk_rows_own d (index + 1) (id + 1) rows)

  after_error-Fits :
      (d : Document) (e : Exc) (cs : List (Chunk V))
      → All (λ c. c.tenant_id ≡ d.tenant_id) cs
      → Fits (some (after_error e d)) cs
  after_error-Fits d (rag (parse_error message)) cs h = (h, tt)
  after_error-Fits d e cs h = (h, tt)

  own_chunks :
      (d : Document) (db : Db V)
      → find_document d.id db.documents ≡ some d
      → FitsAt d.id db
      → All (λ (c : Chunk V). c.tenant_id ≡ d.tenant_id) (chunks_of d.id db.chunks)
  own_chunks d db found h = (subst (λ o. Fits o (chunks_of d.id db.chunks)) found h).0

  Settles-Fits :
      (db : Db V) (d : Document) (built : Result (List (ChunkDraft × V)))
      (r : Result Document × Db V)
      → find_document d.id db.documents ≡ some d
      → Settles db d built r
      → FitsAt d.id db
      → FitsAt d.id r.1
  Settles-Fits db d (ok rows) (r, db') found (_, row, chunks) h =
      rw (row, chunks)
        (
          chunk_rows_own d 0 db.next_chunk_id rows,
          (
            ap some (sym (length-chunk_rows d 0 db.next_chunk_id rows)),
            IsNumbered-chunk_rows d 0 db.next_chunk_id rows,
          ),
        )
  Settles-Fits db d (err e) (r, db') found (_, row, chunks) h =
      rw (row, chunks) (after_error-Fits d e (chunks_of d.id db.chunks) (own_chunks d db found h))

  processed_found :
      (ports : Ports) (service : IngestionService V) (d : Document) (db : Db V)
      → find_document d.id db.documents ≡ some d
      → FitsAt d.id db
      → FitsAt d.id (process ports service d.id db).1
  processed_found ports service d db found h = elim (Bool-cases (is_completed d.status)) [
    | inl done ↦ rw (process_completed ports service d db found done) h
    | inr todo ↦ elim (Option-cases d.raw_content) [
      | inl missing ↦ rw (process_empty ports service d db found todo missing) h
      | inr (raw, payload) ↦
          Settles-Fits db d _ (process ports service d.id db) found
            (process-Settles ports service db d raw found todo payload) h
    ]
  ]

  pub processed_self :
      (ports : Ports) (service : IngestionService V) (id : ℕ) (db : Db V)
      → FitsAt id db
      → FitsAt id (process ports service id db).1
  processed_self ports service id db h = elim (Option-cases (find_document id db.documents)) [
    | inl missing ↦ rw (process_at ports service id db none missing) h
    | inr (d, found) ↦
        let key = find_document-id id db.documents d found in
        subst (λ (i : ℕ). FitsAt i db → FitsAt i (process ports service i db).1) key
          (processed_found ports service d db
            (subst (λ (i : ℕ). find_document i db.documents ≡ some d) (sym key) found))
          h
  ]

  pub failed_self :
      (id : ℕ) (message : Text) (db : Db V) → FitsAt id db → FitsAt id (mark_failed id message db)
  failed_self id message db h = elim (Option-cases (find_document id db.documents)) [
    | inl missing ↦ rw (mark_failed_missing id message db missing) h
    | inr (d, found) ↦
        let (row, chunks, _) = mark_failed_lem id d message db found in
        rw (row, chunks) ((subst (λ o. Fits o (chunks_of id db.chunks)) found h).0, tt)
  ]

  mark_failed_others :
      (id j : ℕ) (d : Document) (message : Text) (db : Db V)
      → find_document id db.documents ≡ some d
      → id ≢ j
      → (chunks_of j (mark_failed id message db).chunks ≡ chunks_of j db.chunks)
        × (find_document j (mark_failed id message db).documents ≡ find_document j db.documents)
  mark_failed_others id j d message db found ne =
      let (_, _, others) = mark_failed_lem id d message db found in others j ne

  pub failed_others :
      (id j : ℕ) (message : Text) (db : Db V)
      → id ≢ j
      → (chunks_of j (mark_failed id message db).chunks ≡ chunks_of j db.chunks)
        × (find_document j (mark_failed id message db).documents ≡ find_document j db.documents)
  failed_others id j message db ne = elim (Option-cases (find_document id db.documents)) [
    | inl missing ↦ rw (mark_failed_missing id message db missing) (refl, refl)
    | inr (d, found) ↦ mark_failed_others id j d message db found ne
  ]
