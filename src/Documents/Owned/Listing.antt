-- ===== src/Documents/Owned/Listing.antt =====
-- The pages of a tenant's documents.
use rag_knowledge_platform_f.Prelude.{
  ℕ, zero, suc, ◌+◌, ◌*◌, ◌≤◌, List, [], ◌∷◌, ◌++◌, ◌≡◌, refl, sym, length, drop, take-append-drop,
  arith, Bool-cases, inl, inr, eqb→eq, ◌==◌,
}
use native.Mathlib.Numerals.{unary_clauses}
use native.Mathlib.Nat.{suc-mul}
use rag_knowledge_platform_f.Sorting.{sorted, sorted-IsSorted, length-sorted}
use rag_knowledge_platform_f.Database.Where.{Picks, nil-Picks, cons-Picks, skip-Picks, sorted-Picks}
use rag_knowledge_platform_f.Database.{Document, Db}
use rag_knowledge_platform_f.Security.{TokenClaims}
use rag_knowledge_platform_f.Documents.Owned.{documents_of, newer, list_documents}
use rag_knowledge_platform_f.Documents.Owned.Order.{
  IsNewestFirst, newer-IsWeakOrder, IsSorted-IsNewestFirst,
}

module _ {V : Type 0} (limit : ℕ) (tenant : TokenClaims) (db : Db V) where
  -- The items of the pages that a client reads one after the other, from an offset on.
  pub read_pages : (pages offset : ℕ) → List Document
  read_pages zero offset = []
  read_pages (suc pages) offset =
      (list_documents limit offset tenant db).items ++ read_pages pages (offset + limit)

drop-nil : {A : Type 0} (n : ℕ) → drop {A = A} n [] ≡ []
drop-nil zero = refl
drop-nil (suc n) = refl

drop-drop : {A : Type 0} (n m : ℕ) (xs : List A) → drop n (drop m xs) ≡ drop (n + m) xs
drop-drop n zero xs = simp unary_clauses refl
drop-drop n (suc m) [] = simp unary_clauses (drop-nil n)
drop-drop n (suc m) (x ∷ xs) = simp unary_clauses (drop-drop n m xs)

drop_all : {A : Type 0} (n : ℕ) (xs : List A) → length xs ≤ n → drop n xs ≡ []
drop_all zero [] h = refl
drop_all zero (x ∷ xs) h = absurd (omega (arith, h))
drop_all (suc n) [] h = refl
drop_all (suc n) (x ∷ xs) h = drop_all n xs (omega (arith, h))

documents_of-Picks :
    (tenant_id : ℕ) (ds : List Document)
    → Picks (λ d. d.tenant_id ≡ tenant_id) (documents_of tenant_id ds) ds
unfolding documents_of
documents_of-Picks tenant_id [] = nil-Picks _
documents_of-Picks tenant_id (d ∷ ds) = elim (Bool-cases (d.tenant_id == tenant_id)) [
  | inl own ↦ rw own (cons-Picks _ d _ ds (eqb→eq _ _ own) (documents_of-Picks tenant_id ds))
  | inr other ↦
      rw other
        (skip-Picks _ d _ ds (λ e. ground (arith, other, e)) (documents_of-Picks tenant_id ds))
]

offset_next : (limit offset : ℕ) → offset + limit ≡ limit + offset
offset_next limit offset = omega arith

next_pages :
    (n limit offset pages : ℕ) → n ≤ offset + suc pages * limit → n ≤ limit + offset + pages * limit
next_pages n limit offset pages h = omega (arith, h, suc-mul pages limit)

module _ {V : Type 0} (limit : ℕ) (tenant : TokenClaims) (db : Db V) where
  read_pages-drop :
      (pages offset : ℕ)
      → length (sorted newer (documents_of tenant.tenant_id db.documents)) ≤ offset + pages * limit
      → read_pages limit tenant db pages offset
        ≡ drop offset (sorted newer (documents_of tenant.tenant_id db.documents))
  unfolding read_pages list_documents
  read_pages-drop zero offset h = sym (
      drop_all offset (sorted newer (documents_of tenant.tenant_id db.documents))
        (omega (arith, h)))
  read_pages-drop (suc pages) offset h = rw (
    offset_next limit offset,
    read_pages-drop pages (limit + offset) (next_pages _ limit offset pages h),
    sym (drop-drop limit offset (sorted newer (documents_of tenant.tenant_id db.documents))),
    take-append-drop limit
        (drop offset (sorted newer (documents_of tenant.tenant_id db.documents))),
  )

  whole :
      (pages : ℕ)
      → (list_documents limit 0 tenant db).total ≤ pages * limit
      → read_pages limit tenant db pages 0
        ≡ sorted newer (documents_of tenant.tenant_id db.documents)
  unfolding list_documents
  whole pages h =
      read_pages-drop pages 0
        (omega (arith, h, length-sorted newer (documents_of tenant.tenant_id db.documents)))

  -- What a client reads that asks for page after page: the tenant's documents, newest first.
  abbrev pub IsListing : List Document → Type 0
  IsListing items =
      IsNewestFirst items
      × Picks (λ d. d.tenant_id ≡ tenant.tenant_id) items db.documents
      × (length items ≡ (list_documents limit 0 tenant db).total)

  sorted-IsListing : IsListing (sorted newer (documents_of tenant.tenant_id db.documents))
  unfolding list_documents
  sorted-IsListing = (
    IsSorted-IsNewestFirst _
        (sorted-IsSorted newer newer-IsWeakOrder (documents_of tenant.tenant_id db.documents)),
    sorted-Picks (λ d. d.tenant_id ≡ tenant.tenant_id) newer
        (documents_of tenant.tenant_id db.documents) db.documents
        (documents_of-Picks tenant.tenant_id db.documents),
    length-sorted newer (documents_of tenant.tenant_id db.documents),
  )

  -- If the pages that a client reads have room for the total that the first one reports, the items it
  -- gets are the documents of the tenant, each as often as the table has it and no others, as many as
  -- that total. They stand newest first: a later one is older, or as old and its id is not below.
  pub read_pages-IsListing :
      (pages : ℕ)
      → (list_documents limit 0 tenant db).total ≤ pages * limit
      → IsListing (read_pages limit tenant db pages 0)
  read_pages-IsListing pages h = rw (whole pages h) sorted-IsListing
