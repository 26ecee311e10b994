-- ===== src/Documents/Owned/Deleting.antt =====
-- Deleting a document.
use rag_knowledge_platform_f.Prelude.{
  ℕ, Bool, true, false, Option, none, some, List, [], ◌∷◌, ◌≡◌, ◌≢◌, refl, inl, inr, ◌==◌,
  Bool-cases, Option-cases, arith,
}
use rag_knowledge_platform_f.Text.{Text}
use rag_knowledge_platform_f.Errors.{Result, ok, err}
use rag_knowledge_platform_f.Database.{Document, Db, find_document, chunks_of}
use rag_knowledge_platform_f.Database.Queries.{chunks_of-delete_self, chunks_of-delete_ne}
use rag_knowledge_platform_f.Security.{TokenClaims}
use rag_knowledge_platform_f.Documents.Owned.{
  remove_document, get_owned, owned_or_not_found, deleted, delete_document,
}

find-remove_self : (id : ℕ) (ds : List Document) → find_document id (remove_document id ds) ≡ none
unfolding find_document remove_document
find-remove_self id [] = refl
find-remove_self id (d ∷ ds) = elim (Bool-cases (d.id == id)) [
  | inl own ↦ rw own (find-remove_self id ds)
  | inr other ↦ rw (other, other) (find-remove_self id ds)
]

find-remove_ne :
    (id other : ℕ) (ds : List Document)
    → (id == other) ≡ false
    → find_document other (remove_document id ds) ≡ find_document other ds
unfolding find_document remove_document
find-remove_ne id other [] h = refl
find-remove_ne id other (d ∷ ds) h = ground (arith, find-remove_ne id other ds h)

-- Whether a tenant has a document with this id.
abbrev pub owns : TokenClaims → Option Document → Bool
owns tenant none = false
owns tenant (some d) = d.tenant_id == tenant.tenant_id

module _ {V : Type 0} (id other : ℕ) (tenant : TokenClaims) (db : Db V) where
  -- The owner's document is gone with its chunks, and no other is touched; all else changes nothing.
  abbrev pub Deletes : Result (Unit {0}) × Db V → Type 0
  Deletes (ok tt, db') =
      (owns tenant (find_document id db.documents) ≡ true)
      × (find_document id db'.documents ≡ none)
      × (chunks_of id db'.chunks ≡ [])
      × (find_document other db'.documents ≡ find_document other db.documents)
      × (chunks_of other db'.chunks ≡ chunks_of other db.chunks)
  Deletes (err e, db') = (owns tenant (find_document id db.documents) ≡ false) × (db' ≡ db)

  -- A DELETE answers without an error only if the tenant has the document; then the document and its
  -- chunks are gone, and any other document and its chunks are as they were. If it has not, the
  -- answer is an error, and nothing changes.
  pub delete_document-Deletes :
      (uuid_str : ℕ → Text) → id ≢ other → Deletes (delete_document uuid_str id tenant db)
  unfolding delete_document deleted get_owned owned_or_not_found
  delete_document-Deletes uuid_str apart = elim (Option-cases (find_document id db.documents)) [
    | inl gone ↦ rw (gone, gone) (refl, refl)
    | inr (d, found) ↦ elim (Bool-cases (d.tenant_id == tenant.tenant_id)) [
      | inl own ↦
          rw (found, own, found, own)
            (
              refl,
              find-remove_self id db.documents,
              chunks_of-delete_self id db.chunks,
              find-remove_ne id other db.documents (ground (arith, apart)),
              chunks_of-delete_ne id other db.chunks apart,
            )
      | inr foreign ↦ rw (found, foreign, found, foreign) (refl, refl)
    ]
  ]
