-- ===== src/Documents.antt =====
-- api/routes/documents.py, and the file names of ingestion/parsers.py. `str.lower`, `repr`, and whether
-- the broker takes a task are parameters; the queue is the list of the ids that it has taken.
pub mod Batch
pub mod Owned
pub mod Events
use rag_knowledge_platform_f.Prelude.{
  ℕ, ◌+◌, ◌-◌, Bool, true, false, ◌||◌, not, Option, none, some, List, [], ◌∷◌, ◌++◌, length,
  is_empty, ltb, ◌==◌, if◌then◌else◌,
}
use rag_knowledge_platform_f.Text.{Text, codes, text_eq}
use rag_knowledge_platform_f.Text.Decimal.{decimal}
use rag_knowledge_platform_f.Errors.{
  Result, ok, err, rag, RagError, file_too_large, queue_unavailable, not_found,
  unsupported_document_type, detail, ◌>>=◌,
}
use rag_knowledge_platform_f.Database.{SourceType, Status, Document, Db, find_document}
use rag_knowledge_platform_f.Ingestion.{Ports, IngestionService, register, mark_failed}

pub record Names : Type 0 where
  pub lower : Text → Text
  pub repr : Text → Text

-- `filename.rsplit(".", 1)[-1]`, if there is a dot; `last` is what follows the dot read last.
after_dot : Option Text → Text → Option Text
after_dot last [] = last
after_dot last (c ∷ name) =
    let dotted = after_dot (some name) name in
    let same = after_dot last name in if c == b'.' then dotted else same

unfoldable pub suffix_of : Names → Text → Text
unfolding after_dot
suffix_of names filename = elim (after_dot none filename) [
  | none ↦ []
  | some s ↦ codes "." ++ names.lower s
]

-- `_SUFFIX_TO_TYPE`.
unfoldable pub type_of_suffix : Text → Option SourceType
type_of_suffix suffix =
    if text_eq suffix (codes ".pdf")
    then some SourceType.pdf
    else if text_eq suffix (codes ".md") || text_eq suffix (codes ".markdown")
    then some SourceType.markdown
    else if text_eq suffix (codes ".html") || text_eq suffix (codes ".htm")
    then some SourceType.html
    else none

unsupported_message : Names → Text → Text
unsupported_message names suffix =
    codes "unsupported file extension "
    ++ names.repr (if is_empty suffix then codes "(none)" else suffix)
    ++ codes " (supported: ['.htm', '.html', '.markdown', '.md', '.pdf'])"

unfoldable pub source_type_for_filename : Names → Text → Result SourceType
unfolding unsupported_message
source_type_for_filename names filename = elim (type_of_suffix (suffix_of names filename)) [
  | none ↦
      err (rag (unsupported_document_type (unsupported_message names (suffix_of names filename))))
  | some source_type ↦ ok source_type
]

-- `UploadFile`; `file.filename or default`.
pub record UploadFile : Type 0 where
  pub filename : Option Text
  pub raw : List ℕ

pub filename_or : Text → UploadFile → Text
filename_or default file = elim file.filename [
  | none ↦ default
  | some name ↦ if is_empty name then default else name
]

too_large_message : (size limit : ℕ) → Text
too_large_message size limit =
    codes "file is " ++ decimal size ++ codes " bytes; limit is " ++ decimal limit

-- The check on the size.
pub check_size : (limit : ℕ) → List ℕ → Result {0} Unit
unfolding too_large_message
check_size limit raw =
    if ltb limit (length raw)
    then err (rag (file_too_large (too_large_message (length raw) limit)))
    else ok tt

-- `BatchItemResult`, with the whole row where the response shows some fields of it.
pub record BatchItem : Type 0 where
  pub filename : Text
  pub document : Option Document
  pub error : Option Text

-- `DocumentBatchOut`.
pub record BatchOut : Type 0 where
  pub accepted : ℕ
  pub rejected : ℕ
  pub results : List BatchItem

-- `sum(1 for r in results if r.document is not None)`.
pub count_accepted : List BatchItem → ℕ
count_accepted [] = 0
count_accepted (r ∷ results) =
    let rest = count_accepted results in elim r.document [ none ↦ rest | some d ↦ 1 + rest ]

abbrev pub accepted_item : Text → Document → BatchItem
accepted_item filename document = record {
  filename = filename;
  document = some document;
  error = none;
}

abbrev pub rejected_item : Text → RagError → BatchItem
rejected_item filename r = record { filename = filename; document = none; error = some (detail r) }

-- How the outcome of a file joins the results of the files behind it: the program's own errors are
-- recorded, and any other exception leaves the loop.
pub add_item :
    {S : Type 0}
    → Text
    → Result Document
    → S
    → Result (List BatchItem) × S
    → Result (List BatchItem) × S
add_item filename (ok document) state (rest, state') =
    (rest >>= (λ items. ok (accepted_item filename document ∷ items)), state')
add_item filename (err (rag r)) state (rest, state') =
    (rest >>= (λ items. ok (rejected_item filename r ∷ items)), state')
add_item filename (err e) state rest = (err e, state)

module _ {V : Type 0} (ports : Ports) (service : IngestionService V) (names : Names)
    (delay : ℕ → Bool) (max_upload_bytes tenant_id created_at : ℕ) where
  -- `ingest_document.delay`, after `register`; a task that the broker refuses fails the row.
  pub enqueue : Result Document × Db V → List ℕ → Result Document × (Db V × List ℕ)
  enqueue (ok document, db) queue =
      if delay document.id then (ok document, (db, queue ++ document.id ∷ [])) else (
        err (rag queue_unavailable),
        (mark_failed document.id (codes "could not enqueue ingestion") db, queue),
      )
  enqueue (err e, db) queue = (err e, (db, queue))

  -- What is done with a file whose type is known, or is not.
  pub register_typed :
      (id : ℕ)
      → Text
      → List ℕ
      → Result SourceType
      → Db V
      → List ℕ
      → Result Document × (Db V × List ℕ)
  register_typed id filename raw (err e) db queue = (err e, (db, queue))
  register_typed id filename raw (ok source_type) db queue =
      enqueue (register ports service id created_at tenant_id filename raw source_type db) queue

  -- `upload_document`: the type comes before the size.
  pub upload_document : (id : ℕ) → UploadFile → Db V → List ℕ → Result Document × (Db V × List ℕ)
  upload_document id file db queue =
      register_typed id (filename_or (codes "upload") file) file.raw
        (do
          source_type ← source_type_for_filename names (filename_or [] file)
          _ ← check_size max_upload_bytes file.raw
          ok source_type)
        db queue

  -- The `try` of one file in `upload_documents_batch`: the size comes before the type.
  pub upload_one : (id : ℕ) → UploadFile → Db V → List ℕ → Result Document × (Db V × List ℕ)
  upload_one id file db queue =
      register_typed id (filename_or (codes "upload") file) file.raw
        (do
          _ ← check_size max_upload_bytes file.raw
          source_type_for_filename names (filename_or (codes "upload") file))
        db queue

  -- The loop; each file gets the next id.
  pub upload_files :
      (ids : ℕ → ℕ)
      → (k : ℕ) → List UploadFile
      → Db V
      → List ℕ
      → Result (List BatchItem) × (Db V × List ℕ)
  upload_files ids k [] db queue = (ok [], (db, queue))
  upload_files ids k (file ∷ files) db queue =
      let (outcome, state) = upload_one (ids k) file db queue in
      add_item (filename_or (codes "upload") file) outcome state
        (upload_files ids (k + 1) files state.0 state.1)

  pub upload_documents_batch :
      (ids : ℕ → ℕ) → List UploadFile → Db V → List ℕ → Result BatchOut × (Db V × List ℕ)
  upload_documents_batch ids files db queue =
      let (outcome, state) = upload_files ids 0 files db queue in
      (
        outcome >>= (λ results. ok (record {
          accepted = count_accepted results;
          rejected = length results - count_accepted results;
          results = results;
        })),
        state,
      )
