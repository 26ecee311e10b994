-- ===== src/Ingestion/Process.antt =====
-- The outcomes of `process`, and what each leaves in the database.
use rag_knowledge_platform_f.Prelude.{
  ℕ, ◌+◌, false, some, List, [], ◌∷◌, ◌≡◌, ◌≢◌, refl, ap, ◌∙◌, length, arith, append-nil,
}
use rag_knowledge_platform_f.Text.{Text}
use rag_knowledge_platform_f.Errors.{Exc, Result, ok, err, rag, parse_error}
use rag_knowledge_platform_f.Chunking.Packing.{ChunkDraft}
use rag_knowledge_platform_f.Database.{
  Document, Db, find_document, update_document, delete_chunks, chunks_of, is_completed,
}
use rag_knowledge_platform_f.Database.Queries.{
  update_lem, find-update, chunks_of-delete_self, chunks_of-delete_ne, chunks_of-append,
}
use rag_knowledge_platform_f.Ingestion.{
  Ports, IngestionService, chunk_rows, build_rows, complete, begin_processing, fail, store_rows,
  mark_failed, finish_process, process_row, process,
}

-- The row after an exception: only a `ParseError` is recorded, with at most 500 characters of its
-- detail; after any other the row stays in PROCESSING for the caller.
abbrev pub after_error : Exc → Document → Document
after_error (rag (parse_error message)) d = fail message d
after_error e d = begin_processing d

module _ {V : Type 0} where
  chunks_of-chunk_rows_self :
      (d : Document) (index id : ℕ) (rows : List (ChunkDraft × V))
      → chunks_of d.id (chunk_rows d index id rows) ≡ chunk_rows d index id rows
  unfolding chunks_of chunk_rows
  chunks_of-chunk_rows_self d index id [] = refl
  chunks_of-chunk_rows_self d index id (row ∷ rows) =
      ground (arith, chunks_of-chunk_rows_self d (index + 1) (id + 1) rows)

  chunks_of-chunk_rows_ne :
      (d : Document) (j index id : ℕ) (rows : List (ChunkDraft × V))
      → d.id ≢ j
      → chunks_of j (chunk_rows d index id rows) ≡ []
  unfolding chunks_of chunk_rows
  chunks_of-chunk_rows_ne d j index id [] h = refl
  chunks_of-chunk_rows_ne d j index id (row ∷ rows) h =
      ground (arith, chunks_of-chunk_rows_ne d j (index + 1) (id + 1) rows h)

  -- Storing replaces the chunks of the document, and touches no other document and no other chunk.
  pub store_rows_lem :
      (d : Document) (rows : List (ChunkDraft × V)) (db : Db V) (j : ℕ)
      → (chunks_of d.id (store_rows d rows db).chunks ≡ chunk_rows d 0 db.next_chunk_id rows)
        × (d.id ≢ j
            → (chunks_of j (store_rows d rows db).chunks ≡ chunks_of j db.chunks)
              × (find_document j (store_rows d rows db).documents ≡ find_document j db.documents))
  unfolding store_rows
  store_rows_lem d rows db j = (
    rw
        (
          chunks_of-append d.id (delete_chunks d.id db.chunks)
              (chunk_rows d 0 db.next_chunk_id rows),
          chunks_of-delete_self d.id db.chunks,
        )
        (chunks_of-chunk_rows_self d 0 db.next_chunk_id rows),
    λ ne. (
      (rw
          (
            chunks_of-append j (delete_chunks d.id db.chunks)
                (chunk_rows d 0 db.next_chunk_id rows),
            chunks_of-delete_ne d.id j db.chunks ne,
            chunks_of-chunk_rows_ne d j 0 db.next_chunk_id rows ne,
          )
          (append-nil (chunks_of j db.chunks))),
      ground (arith, find-update d.id j (complete (length rows)) db.documents (λ e. refl)),
    ),
  )

  -- How a run that has begun to process the row `d` ends, by what parsing, chunking and embedding do.
  abbrev pub Settles :
      Db V → Document → Result (List (ChunkDraft × V)) → Result Document × Db V → Type 0
  Settles db d (ok rows) (r, db') =
      (r ≡ ok (complete (length rows) d))
      × (find_document d.id db'.documents ≡ some (complete (length rows) d))
      × (chunks_of d.id db'.chunks ≡ chunk_rows d 0 db.next_chunk_id rows)
  Settles db d (err e) (r, db') =
      (r ≡ err e)
      × (find_document d.id db'.documents ≡ some (after_error e d))
      × (db'.chunks ≡ db.chunks)

  -- Nothing of another document changes.
  abbrev pub OthersKept : ℕ → Db V → Db V → Type 0
  OthersKept id db db' =
      (j : ℕ)
      → id ≢ j
      → (chunks_of j db'.chunks ≡ chunks_of j db.chunks)
        × (find_document j db'.documents ≡ find_document j db.documents)

  mark_failed_found :
      (id : ℕ) (e : Document) (message : Text) (db : Db V)
      → find_document id db.documents ≡ some e
      → mark_failed id message db
        ≡ record db { documents = update_document id (fail message) db.documents }
  unfolding mark_failed
  mark_failed_found id e message db h = rw (h, mark_failed)

  pub mark_failed_lem :
      (id : ℕ) (e : Document) (message : Text) (db : Db V)
      → find_document id db.documents ≡ some e
      → (find_document id (mark_failed id message db).documents ≡ some (fail message e))
        × ((mark_failed id message db).chunks ≡ db.chunks)
        × OthersKept id db (mark_failed id message db)
  mark_failed_lem id e message db h =
      let (self, others) = update_lem id (fail message) e db.documents (λ x. refl) h in
      rw (mark_failed_found id e message db h) (self, refl, λ j ne. (refl, others j ne))

  chunk_rows-begin_processing :
      (d : Document) (index id : ℕ) (rows : List (ChunkDraft × V))
      → chunk_rows (begin_processing d) index id rows ≡ chunk_rows d index id rows
  unfolding chunk_rows
  chunk_rows-begin_processing d index id [] = refl
  chunk_rows-begin_processing d index id ((draft, embedding) ∷ rows) =
      rw (chunk_rows-begin_processing d (index + 1) (id + 1) rows)

  stored_document :
      (d e : Document) (rows : List (ChunkDraft × V)) (db : Db V)
      → find_document d.id db.documents ≡ some e
      → find_document d.id (store_rows d rows db).documents ≡ some (complete (length rows) e)
  unfolding store_rows
  stored_document d e rows db h =
      (update_lem d.id (complete (length rows)) e db.documents (λ x. refl) h).0

  -- The `try` of `process`, in the database `db` with `docs` for its documents.
  finish_process_lem :
      (d : Document) (built : Result (List (ChunkDraft × V))) (db : Db V) (docs : List Document)
      → find_document d.id docs ≡ some (begin_processing d)
      → ((j : ℕ) → d.id ≢ j → find_document j docs ≡ find_document j db.documents)
      → let r = finish_process (begin_processing d) built (record db { documents = docs }) in
        Settles db d built r × OthersKept d.id db r.1
  unfolding finish_process
  finish_process_lem d (ok rows) db docs h others =
      let p = begin_processing d in
      let db' : Db V = record db { documents = docs } in
      (
        (
          refl,
          stored_document p p rows db' h,
          (store_rows_lem p rows db' d.id).0
              ∙ chunk_rows-begin_processing d 0 db.next_chunk_id rows,
        ),
        λ j ne. let kept = (store_rows_lem p rows db' j).1 ne in (kept.0, kept.1 ∙ others j ne),
      )
  finish_process_lem d (err (rag (parse_error message))) db docs h others =
      let (self, same, kept) =
        mark_failed_lem d.id (begin_processing d) message (record db { documents = docs }) h in
      ((refl, self, same), λ j ne. ((kept j ne).0, (kept j ne).1 ∙ others j ne))
  finish_process_lem d (err x) db docs h others = ((refl, h, refl), λ j ne. (refl, others j ne))

  pub process-process_row :
      (ports : Ports) (service : IngestionService V) (db : Db V) (d : Document)
      → find_document d.id db.documents ≡ some d
      → is_completed d.status ≡ false
      → process ports service d.id db ≡ process_row ports service d d.raw_content db
  unfolding process
  process-process_row ports service db d found todo = rw (found, process) (rw todo refl)

  process_row-some :
      (ports : Ports) (service : IngestionService V) (db : Db V) (d : Document) (raw : List ℕ)
      → process_row ports service d (some raw) db
        ≡ finish_process
            (begin_processing d)
            (build_rows ports service raw d.source_type)
            (record db { documents = update_document d.id begin_processing db.documents })
  unfolding process_row
  process_row-some ports service db d raw = refl

  pub process_run :
      (ports : Ports) (service : IngestionService V) (db : Db V) (d : Document) (raw : List ℕ)
      → find_document d.id db.documents ≡ some d
      → is_completed d.status ≡ false
      → d.raw_content ≡ some raw
      → Settles db d (build_rows ports service raw d.source_type) (process ports service d.id db)
        × OthersKept d.id db (process ports service d.id db).1
  process_run ports service db d raw found todo payload =
      let (self, others) = update_lem d.id begin_processing d db.documents (λ x. refl) found in
      let begun =
        process-process_row ports service db d found todo
        ∙ ap (λ o. process_row ports service d o db) payload
        ∙ process_row-some ports service db d raw in
      rw begun (
        finish_process_lem d (build_rows ports service raw d.source_type) db
          (update_document d.id begin_processing db.documents) self others)

  pub process-Settles :
      (ports : Ports) (service : IngestionService V) (db : Db V) (d : Document) (raw : List ℕ)
      → find_document d.id db.documents ≡ some d
      → is_completed d.status ≡ false
      → d.raw_content ≡ some raw
      → Settles db d (build_rows ports service raw d.source_type) (process ports service d.id db)
  process-Settles ports service db d raw found todo payload =
      (process_run ports service db d raw found todo payload).0
