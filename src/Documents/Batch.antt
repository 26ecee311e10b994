-- ===== src/Documents/Batch.antt =====
-- The upload of a batch: no file keeps another from being taken.
use rag_knowledge_platform_f.Prelude.{
  ℕ, suc, subst, ◌+◌, ◌-◌, ◌≤◌, Bool, true, false, Option, none, some, List, [], ◌∷◌, ◌++◌, ◌≡◌,
  refl, sym, ap, ◌∙◌, length, ltb, Bool-cases, inl, inr, arith, append_assoc, append-nil,
  if◌then◌else◌,
}
use rag_knowledge_platform_f.Text.{Text, codes}
use rag_knowledge_platform_f.Errors.{
  Result, ok, err, Exc, rag, RagError, storage_quota_exceeded, duplicate_document, ◌>>=◌,
}
use rag_knowledge_platform_f.Database.{
  any_conflict, used_bytes, SourceType, Document, Db, Tenant, find_tenant,
}
use rag_knowledge_platform_f.Ingestion.{Ports, IngestionService, register, over_quota, new_document}
use rag_knowledge_platform_f.Documents.{
  Names, UploadFile, filename_or, check_size, source_type_for_filename, type_of_suffix, suffix_of,
  BatchItem, BatchOut, count_accepted, enqueue, register_typed, upload_one, add_item, accepted_item,
  rejected_item, upload_files, upload_documents_batch,
}

-- One of the program's own errors, which the loop over the files catches.
abbrev IsRag : Exc → Type 0
IsRag e = (r : RagError) × (e ≡ rag r)

abbrev FailsAsRag : {A : Type 0} → Result A → Type 0
FailsAsRag (ok a) = Unit
FailsAsRag (err e) = IsRag e

check_size-FailsAsRag : (limit : ℕ) (raw : List ℕ) → FailsAsRag (check_size limit raw)
unfolding check_size
check_size-FailsAsRag limit raw = elim (Bool-cases (ltb limit (length raw))) [
  | inl over ↦ rw over (_, refl)
  | inr fits ↦ rw fits tt
]

or_rag-FailsAsRag :
    {A : Type 0} (o : Option A) (r : RagError)
    → FailsAsRag (elim o as (λ _. Result A) [ none ↦ err (rag r) | some a ↦ ok a ])
or_rag-FailsAsRag none r = (r, refl)
or_rag-FailsAsRag (some a) r = tt

source_type-FailsAsRag :
    (names : Names) (filename : Text) → FailsAsRag (source_type_for_filename names filename)
unfolding source_type_for_filename
source_type-FailsAsRag names filename =
    or_rag-FailsAsRag (type_of_suffix (suffix_of names filename)) _

module _ {V : Type 0} where
  -- The branches of `register`.
  branches-FailsAsRag :
      (o : Option Tenant) (over conflict : Bool) (a b c : RagError) (document : Document)
      (db db' : Db V)
      → FailsAsRag
          (elim o as (λ _. Result Document × Db V) [
            | none ↦ (err (rag a), db)
            | some t ↦
                if over
                then (err (rag b), db)
                else if conflict
                then (err (rag c), db)
                else (ok document, db')
          ]).0
  branches-FailsAsRag none over conflict a b c document db db' = (a, refl)
  branches-FailsAsRag (some t) true conflict a b c document db db' = (b, refl)
  branches-FailsAsRag (some t) false true a b c document db db' = (c, refl)
  branches-FailsAsRag (some t) false false a b c document db db' = tt

  register-FailsAsRag :
      (ports : Ports) (service : IngestionService V) (id created_at tenant_id : ℕ) (filename : Text)
      (raw : List ℕ) (source_type : SourceType) (db : Db V)
      → FailsAsRag (register ports service id created_at tenant_id filename raw source_type db).0
  unfolding register
  register-FailsAsRag ports service id created_at tenant_id filename raw source_type db =
      let document = new_document ports id created_at tenant_id filename raw source_type in
      let used = used_bytes tenant_id db.documents in
      branches-FailsAsRag (find_tenant tenant_id db.tenants) (over_quota service used (length raw))
        (any_conflict document db.documents) _
        (storage_quota_exceeded used service.max_tenant_storage (length raw)) duplicate_document
        document db (record db { documents = db.documents ++ document ∷ [] })

  -- What one file does to the queue: its id is appended if it is accepted, and nothing otherwise.
  abbrev Taken : List ℕ → Result Document × (Db V × List ℕ) → Type 0
  Taken queue (ok d, (db, q)) = q ≡ queue ++ d.id ∷ []
  Taken queue (err e, (db, q)) = IsRag e × (q ≡ queue)

-- The ids of the accepted files, in order.
abbrev pub accepted_ids : List BatchItem → List ℕ
accepted_ids [] = []
accepted_ids (r ∷ results) = elim r.document [
  | none ↦ accepted_ids results
  | some d ↦ d.id ∷ accepted_ids results
]

module _ {V : Type 0} (ports : Ports) (service : IngestionService V) (names : Names)
    (delay : ℕ → Bool) (max_upload_bytes tenant_id created_at : ℕ) where
  enqueue-Taken :
      (o : Result Document) (db : Db V) (queue : List ℕ)
      → FailsAsRag o
      → Taken queue
          (enqueue ports service names delay max_upload_bytes tenant_id created_at (o, db) queue)
  unfolding enqueue
  enqueue-Taken (err e) db queue h = (h, refl)
  enqueue-Taken (ok d) db queue h = elim (Bool-cases (delay d.id)) [
    | inl taken ↦ rw taken refl
    | inr refused ↦ rw refused ((_, refl), refl)
  ]

  register_typed-Taken :
      (id : ℕ) (filename : Text) (raw : List ℕ) (source_type : Result SourceType) (db : Db V)
      (queue : List ℕ)
      → FailsAsRag source_type
      → Taken queue (
          register_typed ports service names delay max_upload_bytes tenant_id created_at id filename
            raw source_type db queue)
  unfolding register_typed
  register_typed-Taken id filename raw (err e) db queue h = (h, refl)
  register_typed-Taken id filename raw (ok source_type) db queue h =
      enqueue-Taken _ _ queue
        (register-FailsAsRag ports service id created_at tenant_id filename raw source_type db)

  bind-FailsAsRag :
      {A B : Type 0} (r : Result A) (f : A → Result B)
      → FailsAsRag r
      → ((a : A) → FailsAsRag (f a))
      → FailsAsRag (r >>= f)
  bind-FailsAsRag (ok a) f h k = k a
  bind-FailsAsRag (err e) f h k = h

  upload_one-Taken :
      (id : ℕ) (file : UploadFile) (db : Db V) (queue : List ℕ)
      → Taken queue (
          upload_one ports service names delay max_upload_bytes tenant_id created_at id file db
            queue)
  unfolding upload_one
  upload_one-Taken id file db queue = register_typed-Taken id _ file.raw _ db queue (
      bind-FailsAsRag (check_size max_upload_bytes file.raw) _
        (check_size-FailsAsRag max_upload_bytes file.raw)
        (λ _. source_type-FailsAsRag names (filename_or (codes "upload") file)))

  -- A loop that has gone through its files.
  abbrev pub IsIsolated : ℕ → List ℕ → Result (List BatchItem) × (Db V × List ℕ) → Type 0
  IsIsolated n queue (outcome, (db, queue')) =
      (items : List BatchItem) × (outcome ≡ ok items)
      × (length items ≡ n)
      × (queue' ≡ queue ++ accepted_ids items)

  add_item-IsIsolated :
      (filename : Text) (o : Result Document) (s : Db V × List ℕ)
      (rest : Result (List BatchItem) × (Db V × List ℕ)) (n : ℕ) (queue : List ℕ)
      → Taken queue (o, s)
      → IsIsolated n s.1 rest
      → IsIsolated (suc n) queue (add_item filename o s rest)
  unfolding add_item
  add_item-IsIsolated filename (ok d) (db, q) (outcome, (db', q')) n queue taken h =
      let (items, e, same, grown) = h in
      (
        accepted_item filename d ∷ items,
        ap (λ (r : Result (List BatchItem)). r >>= (λ items. ok (accepted_item filename d ∷ items)))
            e,
        omega (arith, same),
        grown
            ∙ ap (λ x. x ++ accepted_ids items) taken
            ∙ append_assoc queue (d.id ∷ []) (accepted_ids items),
      )
  add_item-IsIsolated filename (err x) (db, q) (outcome, (db', q')) n queue taken h =
      let (items, e, same, grown) = h in
      let ((r, is_rag), kept) = taken in
      subst (λ y. IsIsolated (suc n) queue (add_item filename (err y) (db, q) (outcome, (db', q'))))
        (sym is_rag)
        (
          rejected_item filename r ∷ items,
          ap
              (λ (r' : Result (List BatchItem)).
                r' >>= (λ items. ok (rejected_item filename r ∷ items)))
              e,
          omega (arith, same),
          grown ∙ ap (λ x. x ++ accepted_ids items) kept,
        )

  upload_files-IsIsolated :
      (ids : ℕ → ℕ) (k : ℕ) (files : List UploadFile) (db : Db V) (queue : List ℕ)
      → IsIsolated (length files) queue (
          upload_files ports service names delay max_upload_bytes tenant_id created_at ids k files
            db queue)
  unfolding upload_files
  upload_files-IsIsolated ids k [] db queue = ([], refl, refl, sym (append-nil queue))
  upload_files-IsIsolated ids k (file ∷ files) db queue =
      let one =
        upload_one ports service names delay max_upload_bytes tenant_id created_at (ids k) file db
          queue in
      add_item-IsIsolated _ one.0 one.1 _ _ queue (upload_one-Taken (ids k) file db queue)
        (upload_files-IsIsolated ids (k + 1) files one.1.0 one.1.1)

  count_cases :
      (o : Option Document) (m n : ℕ)
      → m ≤ n
      → elim o as (λ _. ℕ) [ none ↦ m | some d ↦ 1 + m ] ≤ suc n
  count_cases none m n h = omega (arith, h)
  count_cases (some d) m n h = omega (arith, h)

  count_accepted-le : (items : List BatchItem) → count_accepted items ≤ length items
  unfolding count_accepted
  count_accepted-le [] = omega arith
  count_accepted-le (r ∷ items) = count_cases r.document _ _ (count_accepted-le items)

  -- A batch is answered with one result for each file, of which as many are counted as accepted or
  -- rejected, and the tasks enqueued are those of the accepted files, one each, in their order.
  pub upload_documents_batch-IsIsolated :
      (ids : ℕ → ℕ) (files : List UploadFile) (db : Db V) (queue : List ℕ)
      → (out : BatchOut) × ((upload_documents_batch ports service names delay max_upload_bytes
            tenant_id created_at ids files db queue).0
          ≡ ok out)
        × (length out.results ≡ length files)
        × (out.accepted + out.rejected ≡ length files)
        × ((upload_documents_batch ports service names delay max_upload_bytes tenant_id created_at
              ids files db queue).1.1
            ≡ queue ++ accepted_ids out.results)
  unfolding upload_documents_batch
  upload_documents_batch-IsIsolated ids files db queue =
      let (items, e, same, grown) = upload_files-IsIsolated ids 0 files db queue in
      (
        record {
          accepted = count_accepted items;
          rejected = length items - count_accepted items;
          results = items;
        },
        ap
            (λ (r : Result (List BatchItem)). r >>= (λ results. ok (record {
              accepted = count_accepted results;
              rejected = length results - count_accepted results;
              results = results;
            })))
            e,
        same,
        omega (arith, same, count_accepted-le items),
        grown,
      )
