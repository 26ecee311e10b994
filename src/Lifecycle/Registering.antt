-- ===== src/Lifecycle/Registering.antt =====
-- Documents and their chunks behind `register`.
use rag_knowledge_platform_f.Prelude.{
  ℕ, Bool, true, false, ◌||◌, none, some, List, [], ◌∷◌, ◌++◌, ◌≡◌, ◌≢◌, refl, subst, arith, ◌==◌,
  eqb_refl,
}
use mathlib.Core.Bool.{true≢false}
use rag_knowledge_platform_f.Text.{Text}
use rag_knowledge_platform_f.Errors.{Result, ok, err}
use rag_knowledge_platform_f.Database.{
  SourceType, Document, Db, find_document, chunks_of, any_conflict, conflicts, is_completed,
}
use rag_knowledge_platform_f.Ingestion.{Ports, IngestionService, new_document}
use rag_knowledge_platform_f.Ingestion.Register.{Registered}
use rag_knowledge_platform_f.Lifecycle.Fits.{Fits, FitsAt, at_one}

neither : (a b c : Bool) → ((a || b) || c) ≡ false → (a ≡ false) × (c ≡ false)
neither true b c h = (h, absurd (true≢false h))
neither false true c h = absurd (true≢false h)
neither false false c h = (refl, h)

find-append_ne :
    (row : Document) (j : ℕ) (ds : List Document)
    → row.id ≢ j
    → find_document j (ds ++ row ∷ []) ≡ find_document j ds
unfolding find_document
find-append_ne row j [] ne = ground (arith, ne)
find-append_ne row j (d ∷ ds) ne = ground (arith, find-append_ne row j ds ne)

find-append_fresh :
    (row : Document) (ds : List Document)
    → any_conflict row ds ≡ false
    → (find_document row.id ds ≡ none) × (find_document row.id (ds ++ row ∷ []) ≡ some row)
unfolding find_document any_conflict conflicts
find-append_fresh row [] new = (refl, rw (eqb_refl row.id) refl)
find-append_fresh row (d ∷ ds) new =
    let (free, rest) = neither (d.id == row.id) _ _ new in rw free (find-append_fresh row ds rest)

module _ {V : Type 0} where
  registered_self :
      (row : Document) (db : Db V)
      → any_conflict row db.documents ≡ false
      → is_completed row.status ≡ false
      → FitsAt row.id db
      → FitsAt row.id (record db { documents = db.documents ++ row ∷ [] })
  registered_self row db new pending h =
      let (missing, found) = find-append_fresh row db.documents new in
      let empty : chunks_of row.id db.chunks ≡ [] =
        subst (λ o. Fits o (chunks_of row.id db.chunks)) missing h in
      rw (found, empty, pending) (tt, tt)

  pub registered :
      (ports : Ports) (service : IngestionService V) (id created_at tenant_id : ℕ) (filename : Text)
      (raw : List ℕ) (source_type : SourceType) (j : ℕ) (db : Db V) (r : Result Document × Db V)
      → Registered ports service id created_at tenant_id filename raw source_type db r
      → FitsAt j db
      → FitsAt j r.1
  unfolding new_document
  registered ports service id created_at tenant_id filename raw source_type j db (err e, db') same
        h =
      rw same h
  registered ports service id created_at tenant_id filename raw source_type j db (ok d, db')
        (_, added, new, _) h =
      let row = new_document ports id created_at tenant_id filename raw source_type in
      rw added (
        at_one row.id j db (record db { documents = db.documents ++ row ∷ [] })
          (registered_self row db new refl) (λ ne. (refl, find-append_ne row j db.documents ne)) h)
