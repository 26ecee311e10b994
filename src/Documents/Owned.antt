-- ===== src/Documents/Owned.antt =====
-- The routes of api/routes/documents.py on documents that are there: reading, listing and deleting.
pub mod Deleting
pub mod Listing
pub mod Order
use rag_knowledge_platform_f.Prelude.{
  ℕ, ◌+◌, Bool, true, false, ◌&&◌, ◌||◌, not, Option, none, some, List, [], ◌∷◌, ◌++◌, length, take,
  drop, ltb, leb, ◌==◌, if◌then◌else◌,
}
use rag_knowledge_platform_f.Text.{Text, codes}
use rag_knowledge_platform_f.Errors.{Result, ok, err, rag, not_found, ◌>>=◌}
use rag_knowledge_platform_f.Sorting.{sorted}
use rag_knowledge_platform_f.Database.{Document, Db, find_document, delete_chunks}
use rag_knowledge_platform_f.Worker.Attempt.{is_terminal}
use rag_knowledge_platform_f.Security.{TokenClaims}

-- `DELETE` of the row with this id.
unfoldable pub remove_document : ℕ → List Document → List Document
remove_document id [] = []
remove_document id (d ∷ ds) =
    let rest = remove_document id ds in if d.id == id then rest else d ∷ rest

-- `where(Document.tenant_id == tenant_id)`.
unfoldable pub documents_of : ℕ → List Document → List Document
documents_of tenant_id [] = []
documents_of tenant_id (d ∷ ds) =
    let rest = documents_of tenant_id ds in if d.tenant_id == tenant_id then d ∷ rest else rest

-- `order_by(Document.created_at.desc(), Document.id)`.
unfoldable pub newer : Document → Document → Bool
newer d e = if d.created_at == e.created_at then ltb d.id e.id else ltb e.created_at d.created_at

-- `DocumentListOut`, with whole rows.
pub record DocumentListOut : Type 0 where
  pub items : List Document
  pub total : ℕ
  pub limit : ℕ
  pub offset : ℕ

module _ {V : Type 0} where
  -- `list_documents`, for a limit and an offset within their bounds.
  unfoldable pub list_documents : (limit offset : ℕ) → TokenClaims → Db V → DocumentListOut
  list_documents limit offset tenant db = record {
    items = take limit (drop offset (sorted newer (documents_of tenant.tenant_id db.documents)));
    total = length (documents_of tenant.tenant_id db.documents);
    limit = limit;
    offset = offset;
  }

module _ (uuid_str : ℕ → Text) where
  owned_or_not_found : ℕ → TokenClaims → Option Document → Result Document
  owned_or_not_found document_id tenant none =
      err (rag (not_found (codes "document " ++ (uuid_str document_id ++ codes " not found"))))
  owned_or_not_found document_id tenant (some d) =
      if not (d.tenant_id == tenant.tenant_id)
      then err (rag (not_found (codes "document " ++ (uuid_str document_id ++ codes " not found"))))
      else ok d

  module _ {V : Type 0} where
    -- `_get_owned`.
    pub get_owned : ℕ → TokenClaims → Db V → Result Document
    unfolding owned_or_not_found
    get_owned document_id tenant db =
        owned_or_not_found document_id tenant (find_document document_id db.documents)

    -- `get_document`, with the seconds of `X-Poll-Interval` if the header is set.
    pub get_document : ℕ → TokenClaims → Db V → Result (Document × Option ℕ)
    get_document document_id tenant db = do
      d ← get_owned document_id tenant db
      ok (d, if is_terminal d.status then none else some 2)

    deleted : ℕ → Result Document → Db V → Result (Unit {0}) × Db V
    deleted document_id (err e) db = (err e, db)
    deleted document_id (ok d) db = (
      ok tt,
      record db {
        documents = remove_document document_id db.documents;
        chunks = delete_chunks document_id db.chunks;
      },
    )

    -- `delete_document`; the foreign key of the chunks cascades.
    pub delete_document : ℕ → TokenClaims → Db V → Result (Unit {0}) × Db V
    unfolding deleted
    delete_document document_id tenant db = deleted document_id (get_owned document_id tenant db) db
