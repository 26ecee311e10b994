-- ===== src/Database/Queries.antt =====
-- Laws of the queries and updates.
use rag_knowledge_platform_f.Prelude.{
  ℕ, none, some, List, [], ◌∷◌, ◌++◌, ◌≡◌, ◌≢◌, refl, arith, ◌==◌, if◌then◌else◌,
}
use rag_knowledge_platform_f.Database.{
  Document, Chunk, find_document, update_document, delete_chunks, chunks_of,
}

-- Changes of a document that keep its key.
abbrev pub KeepsId : (Document → Document) → Type 0
KeepsId f = (d : Document) → (f d).id ≡ d.id

pub find-update :
    (id j : ℕ) (f : Document → Document) (ds : List Document)
    → KeepsId f
    → find_document j (update_document id f ds) ≡ (
        if id == j
        then (elim (find_document j ds) [ none ↦ none | some d ↦ some (f d) ])
        else find_document j ds)
unfolding find_document update_document
find-update id j f [] keep = ground arith
find-update id j f (d ∷ ds) keep = ground (arith, keep d, find-update id j f ds keep)

-- A change of the row of a document that keeps its key.
pub update_lem :
    (id : ℕ) (f : Document → Document) (e : Document) (docs : List Document)
    → KeepsId f
    → find_document id docs ≡ some e
    → (find_document id (update_document id f docs) ≡ some (f e))
      × ((j : ℕ) → id ≢ j → find_document j (update_document id f docs) ≡ find_document j docs)
update_lem id f e docs keep h = (
  ground (arith, h, find-update id id f docs keep),
  λ j ne. ground (arith, find-update id j f docs keep),
)

pub find_document-id :
    (id : ℕ) (ds : List Document) (d : Document) → find_document id ds ≡ some d → d.id ≡ id
unfolding find_document
find_document-id id [] d h = cc
find_document-id id (e ∷ ds) d h = ground (arith, find_document-id id ds d)

module _ {V : Type 0} where
  pub chunks_of-delete_self :
      (id : ℕ) (cs : List (Chunk V)) → chunks_of id (delete_chunks id cs) ≡ []
  unfolding chunks_of delete_chunks
  chunks_of-delete_self id [] = refl
  chunks_of-delete_self id (c ∷ cs) = ground (arith, chunks_of-delete_self id cs)

  pub chunks_of-delete_ne :
      (id j : ℕ) (cs : List (Chunk V)) → id ≢ j → chunks_of j (delete_chunks id cs) ≡ chunks_of j cs
  unfolding chunks_of delete_chunks
  chunks_of-delete_ne id j [] h = refl
  chunks_of-delete_ne id j (c ∷ cs) h = ground (arith, chunks_of-delete_ne id j cs h)

  pub chunks_of-append :
      (id : ℕ) (cs ds : List (Chunk V))
      → chunks_of id (cs ++ ds) ≡ chunks_of id cs ++ chunks_of id ds
  unfolding chunks_of
  chunks_of-append id [] ds = refl
  chunks_of-append id (c ∷ cs) ds = ground (arith, chunks_of-append id cs ds)
