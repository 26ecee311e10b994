-- ===== src/Ingestion/Redelivery.antt =====
-- `process` on rows that it does not run on, on rows that it has run on, and on the rows of others.
use rag_knowledge_platform_f.Prelude.{
  ℕ, Bool, true, false, Option, none, some, List, ◌++◌, ◌≡◌, ◌≢◌, refl, sym, ap, ◌∙◌, inl, inr,
  length, subst, Bool-cases, Option-cases,
}
use rag_knowledge_platform_f.Text.{codes}
use rag_knowledge_platform_f.Errors.{Result, ok, err, rag, not_found, parse_error}
use rag_knowledge_platform_f.Chunking.Packing.{ChunkDraft}
use rag_knowledge_platform_f.Database.{Document, Db, find_document, chunks_of, is_completed}
use rag_knowledge_platform_f.Database.Queries.{find_document-id}
use rag_knowledge_platform_f.Ingestion.{
  Ports, IngestionService, complete, process, process_row, no_payload,
}
use rag_knowledge_platform_f.Ingestion.Process.{OthersKept, Settles, process_run, process-Settles}

module _ {V : Type 0} where
  -- A row that `process` does not run on, by its state: a COMPLETED one is returned, and one
  -- without payload is an error. The database is left as it was.
  abbrev pub SkipsRow : Document → Bool → Option (List ℕ) → Db V → Result Document × Db V → Type 0
  SkipsRow d true payload db r = r ≡ (ok d, db)
  SkipsRow d false none db r = r ≡ (err (rag (parse_error no_payload)), db)
  SkipsRow d false (some raw) db r = Unit

  abbrev pub Skips : Ports → ℕ → Db V → Option Document → Result Document × Db V → Type 0
  Skips ports id db none r =
      r
      ≡ (err (rag (not_found (codes "document " ++ (ports.uuid_str id ++ codes " not found")))), db)
  Skips ports id db (some d) r = SkipsRow d (is_completed d.status) d.raw_content db r

  row_payload :
      (ports : Ports) (service : IngestionService V) (d : Document) (payload : Option (List ℕ))
      (db : Db V)
      → SkipsRow d false payload db (process_row ports service d payload db)
  row_payload ports service d none db = unfold process_row in refl
  row_payload ports service d (some raw) db = tt

  pub process_at :
      (ports : Ports) (service : IngestionService V) (id : ℕ) (db : Db V) (o : Option Document)
      → find_document id db.documents ≡ o
      → Skips ports id db o (process ports service id db)
  unfolding process
  process_at ports service id db none h = rw (h, process)
  process_at ports service id db (some d) h = elim (Bool-cases (is_completed d.status)) [
    | inl done ↦ rw (h, process) (rw done refl)
    | inr todo ↦ rw (h, process) (rw todo (row_payload ports service d d.raw_content db))
  ]

  -- `process` returns a COMPLETED row as it is, and raises on a missing row and on one without
  -- payload. In all three cases nothing is written: a row without payload is not marked as failed.
  pub process-Skips :
      (ports : Ports) (service : IngestionService V) (id : ℕ) (db : Db V)
      → Skips ports id db (find_document id db.documents) (process ports service id db)
  process-Skips ports service id db =
      process_at ports service id db (find_document id db.documents) refl

  pub process_found :
      (ports : Ports) (service : IngestionService V) (d : Document) (db : Db V)
      → find_document d.id db.documents ≡ some d
      → SkipsRow d (is_completed d.status) d.raw_content db (process ports service d.id db)
  process_found ports service d db found =
      subst (λ o. Skips ports d.id db o (process ports service d.id db)) found
        (process-Skips ports service d.id db)

  pub process_completed :
      (ports : Ports) (service : IngestionService V) (d : Document) (db : Db V)
      → find_document d.id db.documents ≡ some d
      → is_completed d.status ≡ true
      → process ports service d.id db ≡ (ok d, db)
  process_completed ports service d db found done =
      subst (λ b. SkipsRow d b d.raw_content db (process ports service d.id db)) done
        (process_found ports service d db found)

  pub process_empty :
      (ports : Ports) (service : IngestionService V) (d : Document) (db : Db V)
      → find_document d.id db.documents ≡ some d
      → is_completed d.status ≡ false
      → d.raw_content ≡ none
      → process ports service d.id db ≡ (err (rag (parse_error no_payload)), db)
  process_empty ports service d db found todo missing =
      subst (λ o. SkipsRow d false o db (process ports service d.id db)) missing
        (subst (λ b. SkipsRow d b d.raw_content db (process ports service d.id db)) todo
          (process_found ports service d db found))

  others_of_found :
      (ports : Ports) (service : IngestionService V) (d : Document) (db : Db V)
      → find_document d.id db.documents ≡ some d
      → OthersKept d.id db (process ports service d.id db).1
  others_of_found ports service d db found = elim (Bool-cases (is_completed d.status)) [
    | inl done ↦ rw (process_completed ports service d db found done) (λ j ne. (refl, refl))
    | inr todo ↦ elim (Option-cases d.raw_content) [
      | inl missing ↦
          rw (process_empty ports service d db found todo missing) (λ j ne. (refl, refl))
      | inr (raw, payload) ↦ (process_run ports service db d raw found todo payload).1
    ]
  ]

  -- Whatever comes of a call of `process`, no other document changes, and no chunk of another.
  pub process_others :
      (ports : Ports) (service : IngestionService V) (id j : ℕ) (db : Db V)
      → id ≢ j
      → (chunks_of j (process ports service id db).1.chunks ≡ chunks_of j db.chunks)
        × (find_document j (process ports service id db).1.documents ≡ find_document j db.documents)
  process_others ports service id j db ne = elim (Option-cases (find_document id db.documents)) [
    | inl missing ↦ rw (process_at ports service id db none missing) (refl, refl)
    | inr (d, found) ↦
        let key = find_document-id id db.documents d found in
        subst
          (λ (i : ℕ).
            i ≢ j
            → (chunks_of j (process ports service i db).1.chunks ≡ chunks_of j db.chunks)
              × (find_document j (process ports service i db).1.documents
                  ≡ find_document j db.documents))
          key
          (others_of_found ports service d db
            (subst (λ (i : ℕ). find_document i db.documents ≡ some d) (sym key) found) j)
          ne
  ]

  -- The database in which a run of `process` returns `d'` is one in which `d'` is stored COMPLETED.
  stores_completed :
      (db : Db V) (d d' : Document) (built : Result (List (ChunkDraft × V)))
      (r : Result Document × Db V)
      → Settles db d built r
      → r.0 ≡ ok d'
      → (find_document d'.id r.1.documents ≡ some d')
        × (is_completed d'.status ≡ true)
        × (d'.id ≡ d.id)
  stores_completed db d d' (ok rows) (r, db') h e =
      let same : complete (length rows) d ≡ d' = cc (sym h.0, e) in rw (← same) (h.1, refl, refl)
  stores_completed db d d' (err x) (r, db') h e = cc (sym h.0, e)

  repeats :
      (ports : Ports) (service service' : IngestionService V) (d d' : Document) (db : Db V)
      → find_document d.id db.documents ≡ some d
      → (process ports service d.id db).0 ≡ ok d'
      → process ports service' d.id (process ports service d.id db).1
        ≡ (ok d', (process ports service d.id db).1)
  repeats ports service service' d d' db found e = elim (Bool-cases (is_completed d.status)) [
    | inl done ↦
        let first = process_completed ports service d db found done in
        let same : d ≡ d' = cc (ap (λ (r : Result Document × Db V). r.0) first, e) in
        rw first (process_completed ports service' d db found done ∙ rw same refl)
    | inr todo ↦ elim (Option-cases d.raw_content) [
      | inl missing ↦ cc (
        ap (λ (r : Result Document × Db V). r.0)
            (process_empty ports service d db found todo missing),
        e,
      )
      | inr (raw, payload) ↦
          let (stored, done, key) =
            stores_completed db d d' _ (process ports service d.id db)
              (process-Settles ports service db d raw found todo payload) e in
          subst
            (λ (i : ℕ).
              process ports service' i (process ports service d.id db).1
              ≡ (ok d', (process ports service d.id db).1))
            key (process_completed ports service' d' (process ports service d.id db).1 stored done)
    ]
  ]

  -- A task that is delivered again after a run of `process` that returned changes nothing: the
  -- second run returns the same row, also with another embedder, and writes nothing.
  pub process_idempotent :
      (ports : Ports) (service service' : IngestionService V) (id : ℕ) (d' : Document) (db : Db V)
      → (process ports service id db).0 ≡ ok d'
      → process ports service' id (process ports service id db).1
        ≡ (ok d', (process ports service id db).1)
  process_idempotent ports service service' id d' db e =
      elim (Option-cases (find_document id db.documents)) [
        | inl missing ↦ cc (
          ap (λ (r : Result Document × Db V). r.0) (process_at ports service id db none missing),
          e,
        )
        | inr (d, found) ↦
            let key = find_document-id id db.documents d found in
            subst
              (λ (i : ℕ).
                (process ports service i db).0 ≡ ok d'
                → process ports service' i (process ports service i db).1
                  ≡ (ok d', (process ports service i db).1))
              key
              (repeats ports service service' d d' db
                (subst (λ (i : ℕ). find_document i db.documents ≡ some d) (sym key) found))
              e
      ]
