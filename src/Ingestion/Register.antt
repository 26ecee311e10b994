-- ===== src/Ingestion/Register.antt =====
-- What `register` keeps true of the documents: their keys, and the storage quota.
use rag_knowledge_platform_f.Prelude.{
  ℕ, zero, suc, ◌+◌, ◌≢◌, sym, subst, ap, All, All-append, ◌≤◌, ◌<◌, false, none, some, List, [],
  ◌∷◌, ◌++◌, ◌≡◌, refl, inl, inr, length, arith, ◌==◌, eqb→eq, if◌then◌else◌, Bool-cases,
  Option-cases,
}
use rag_knowledge_platform_f.Text.{Text, codes, text_eq, text_eq_refl}
use rag_knowledge_platform_f.Errors.{
  Result, ok, err, rag, not_found, duplicate_document, storage_quota_exceeded,
}
use rag_knowledge_platform_f.Database.{
  SourceType, Tenant, Document, Db, find_tenant, conflicts, any_conflict, used_bytes,
}
use rag_knowledge_platform_f.Ingestion.{Ports, IngestionService, new_document, over_quota, register}

-- Two documents have different ids, and if they are of one tenant different content hashes.
abbrev pub AreApart : Document → Document → Type 0
AreApart d e = (d.id ≢ e.id) × (d.tenant_id ≡ e.tenant_id → d.content_sha256 ≢ e.content_sha256)

-- Any two documents are apart.
abbrev pub IsKeyed : List Document → Type 0
IsKeyed [] = Unit
IsKeyed (d ∷ ds) = All (AreApart d) ds × IsKeyed ds

-- The bytes that a tenant's documents hold.
abbrev pub bytes_held : ℕ → List Document → ℕ
bytes_held tenant_id [] = 0
bytes_held tenant_id (d ∷ ds) =
    if d.tenant_id == tenant_id
    then d.size_bytes + bytes_held tenant_id ds
    else bytes_held tenant_id ds

-- No tenant holds more than the quota, unless it is 0.
abbrev pub IsWithin : (quota : ℕ) → List Document → Type 0
IsWithin zero docs = Unit
IsWithin (suc n) docs = (t : ℕ) → bytes_held t docs ≤ suc n

used_bytes-held :
    (tenant_id : ℕ) (ds : List Document) → used_bytes tenant_id ds ≡ bytes_held tenant_id ds
unfolding used_bytes
used_bytes-held tenant_id [] = refl
used_bytes-held tenant_id (d ∷ ds) = elim (Bool-cases (d.tenant_id == tenant_id)) [
  | inl own ↦ rw own (omega (arith, used_bytes-held tenant_id ds))
  | inr other ↦ rw other (omega (arith, used_bytes-held tenant_id ds))
]

conflicts-AreApart : (d e : Document) → conflicts d e ≡ false → AreApart d e
unfolding conflicts
conflicts-AreApart d e h = (
  λ same. ground (arith, h, same),
  λ own same.
      ground (arith, h, own, text_eq_refl d.content_sha256, ap (text_eq d.content_sha256) same),
)

any_conflict-AreApart :
    (e : Document) (ds : List Document) → any_conflict e ds ≡ false → All (λ d. AreApart d e) ds
unfolding any_conflict
any_conflict-AreApart e [] h = tt
any_conflict-AreApart e (d ∷ ds) h =
    (conflicts-AreApart d e (ground (arith, h)), any_conflict-AreApart e ds (ground (arith, h)))

IsKeyed-append :
    (e : Document) (ds : List Document)
    → IsKeyed ds
    → All (λ d. AreApart d e) ds
    → IsKeyed (ds ++ e ∷ [])
IsKeyed-append e [] h new = (tt, tt)
IsKeyed-append e (d ∷ ds) h new =
    (All-append (AreApart d) ds (e ∷ []) h.0 (new.0, tt), IsKeyed-append e ds h.1 new.1)

used_bytes-append :
    (tenant_id : ℕ) (e : Document) (ds : List Document)
    → used_bytes tenant_id (ds ++ e ∷ [])
      ≡ used_bytes tenant_id ds + (if e.tenant_id == tenant_id then e.size_bytes else 0)
unfolding used_bytes
used_bytes-append tenant_id e [] = omega arith
used_bytes-append tenant_id e (d ∷ ds) = omega (arith, used_bytes-append tenant_id e ds)

module _ {V : Type 0} (ports : Ports) (service : IngestionService V) (id created_at tenant_id : ℕ)
    (filename : Text) (raw : List ℕ) (source_type : SourceType) (db : Db V) where
  abbrev outcome : Result Document × Db V
  outcome = register ports service id created_at tenant_id filename raw source_type db

  abbrev document : Document
  document = new_document ports id created_at tenant_id filename raw source_type

  -- Either the new row is added and returned, or an exception is raised and nothing changes.
  abbrev pub Registered : Result Document × Db V → Type 0
  Registered (ok d, db') =
      (d ≡ document)
      × (db' ≡ record db { documents = db.documents ++ document ∷ [] })
      × (any_conflict document db.documents ≡ false)
      × (over_quota service (used_bytes tenant_id db.documents) (length raw) ≡ false)
  Registered (err e, db') = db' ≡ db

  abbrev insert_row : Result Document × Db V
  insert_row =
      if over_quota service (used_bytes tenant_id db.documents) (length raw)
      then (
        err (
            rag (
              storage_quota_exceeded (used_bytes tenant_id db.documents) service.max_tenant_storage
                (length raw))),
        db,
      )
      else if any_conflict document db.documents
      then (err (rag duplicate_document), db)
      else (ok document, record db { documents = db.documents ++ document ∷ [] })

  register_unknown :
      find_tenant tenant_id db.tenants ≡ none
      → outcome ≡ (
        err (rag (not_found (codes "tenant " ++ (ports.uuid_str tenant_id ++ codes " not found")))),
        db,
      )
  unfolding register
  register_unknown missing = rw (missing, register)

  register_found :
      (tenant : Tenant) → find_tenant tenant_id db.tenants ≡ some tenant → outcome ≡ insert_row
  unfolding register
  register_found tenant found = rw (found, register)

  insert_row-Registered : Registered insert_row
  insert_row-Registered =
      elim (Bool-cases (over_quota service (used_bytes tenant_id db.documents) (length raw))) [
        | inl over ↦ rw over refl
        | inr fits ↦ rw fits (elim (Bool-cases (any_conflict document db.documents)) [
          | inl known ↦ rw known refl
          | inr new ↦ rw new (refl, refl, new, fits)
        ])
      ]

  pub register-Registered : Registered outcome
  register-Registered = elim (Option-cases (find_tenant tenant_id db.tenants)) [
    | inl missing ↦ rw (register_unknown missing) refl
    | inr (tenant, found) ↦ rw (register_found tenant found) insert_row-Registered
  ]

  -- The documents are keyed, and no tenant holds more than the quota, if there is one.
  abbrev pub IsStored : List Document → Type 0
  IsStored docs = IsKeyed docs × IsWithin service.max_tenant_storage docs

  fits-le :
      (used incoming : ℕ)
      → 0 < service.max_tenant_storage
      → over_quota service used incoming ≡ false
      → used + incoming ≤ service.max_tenant_storage
  unfolding over_quota
  fits-le used incoming on h = ground arith

  insert-le :
      (t : ℕ)
      → used_bytes tenant_id db.documents + length raw ≤ service.max_tenant_storage
      → used_bytes t db.documents ≤ service.max_tenant_storage
      → used_bytes t (db.documents ++ document ∷ []) ≤ service.max_tenant_storage
  insert-le t fits within =
      rw (used_bytes-append t document db.documents) (elim (Bool-cases (tenant_id == t)) [
        | inl own ↦ unfold new_document in rw own (rw (← eqb→eq _ _ own) fits)
        | inr other ↦ unfold new_document in rw other (omega arith)
      ])

  held-le :
      (t : ℕ)
      → 0 < service.max_tenant_storage
      → over_quota service (used_bytes tenant_id db.documents) (length raw) ≡ false
      → bytes_held t db.documents ≤ service.max_tenant_storage
      → bytes_held t (db.documents ++ document ∷ []) ≤ service.max_tenant_storage
  held-le t on fits within =
      subst (λ n. n ≤ service.max_tenant_storage)
        (used_bytes-held t (db.documents ++ document ∷ []))
        (insert-le t (fits-le _ _ on fits) (
          subst (λ n. n ≤ service.max_tenant_storage) (sym (used_bytes-held t db.documents))
            within))

  quota_kept :
      (quota : ℕ)
      → quota ≡ service.max_tenant_storage
      → over_quota service (used_bytes tenant_id db.documents) (length raw) ≡ false
      → IsWithin quota db.documents
      → IsWithin quota (db.documents ++ document ∷ [])
  quota_kept zero e fits h = tt
  quota_kept (suc n) e fits h = λ t.
      subst (λ m. bytes_held t (db.documents ++ document ∷ []) ≤ m) (sym e)
        (held-le t (subst (λ m. 0 < m) e (omega arith)) fits
          (subst (λ m. bytes_held t db.documents ≤ m) e (h t)))

  kept_by :
      (r : Result Document × Db V) → IsStored db.documents → Registered r → IsStored r.1.documents
  kept_by (err e, db') h same = rw same h
  kept_by (ok d, db') h (_, inserted, new, fits) = rw inserted (
    IsKeyed-append document db.documents h.0 (any_conflict-AreApart document db.documents new),
    quota_kept service.max_tenant_storage refl fits h.1,
  )

  -- Whatever comes of it, `register` keeps the keys, one document for an id and one for each tenant
  -- and content hash, and the storage quota of every tenant, unless the quota is switched off by 0.
  pub register-IsStored : IsStored db.documents → IsStored outcome.1.documents
  register-IsStored h = kept_by outcome h register-Registered
