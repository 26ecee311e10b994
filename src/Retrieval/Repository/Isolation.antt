-- ===== src/Retrieval/Repository/Isolation.antt =====
-- A query sees the chunks of its tenant, and no others.
use rag_knowledge_platform_f.Prelude.{
  ℕ, ◌≤◌, Bool, true, ◌&&◌, Option, none, some, List, [], ◌∷◌, ◌≡◌, refl, ap, ◌⊎◌, inl, inr, length,
  length-take, take, All, All-take, All-imply, ◌==◌, eqb→eq, Bool-cases, arith,
}
use rag_knowledge_platform_f.Text.{Text}
use rag_knowledge_platform_f.Database.{Document, Chunk, Db, find_document}
use rag_knowledge_platform_f.Sorting.{sorted-All}
use rag_knowledge_platform_f.Retrieval.Repository.{
  Floats, ChunkHit, Engine, to_hit, where_chunk, join_documents, nearer, dense_search, ranks_before,
  keyword_search,
}

-- One of the items of a list.
abbrev pub In : {A : Type 0} → A → List A → Type 0
In x [] = ⊥
In x (y ∷ ys) = (x ≡ y) ⊎ In x ys

pub All-In : {A : Type 0} (ys : List A) → All (λ x. In x ys) ys
All-In ys = go ys (λ x h. h)
  where
    go : (xs : List _) → ((x : _) → In x xs → In x ys) → All (λ x. In x ys) xs
    go [] h = tt
    go (x ∷ xs) h = (h x (inl refl), go xs (λ y i. h y (inr i)))

module _ {V : Type 0} where
  -- What is assumed of a scan of the index: it visits rows of the table, in any order, any of them.
  pub record IsScan {F : Type 0} (engine : Engine V F) : Type 0 where
    pub visits : (query : V) (cs : List (Chunk V)) → All (λ c. In c cs) (engine.scan query cs)

  -- The hit is that of a stored chunk of the tenant.
  abbrev pub FromTenant : {F : Type 0} → ℕ → Db V → ChunkHit F → Type 0
  FromTenant tenant_id db hit =
      (c : Chunk V) × In c db.chunks
      × (c.tenant_id ≡ tenant_id)
      × (hit.chunk_id ≡ c.id)
      × (hit.document_id ≡ c.document_id)
      × (hit.content ≡ c.content)

  where_chunk-All :
      (P : Chunk V → Type 0) (test : Chunk V → Bool) (cs : List (Chunk V))
      → All P cs
      → All (λ c. P c × (test c ≡ true)) (where_chunk test cs)
  unfolding where_chunk
  where_chunk-All P test [] h = tt
  where_chunk-All P test (c ∷ cs) h = elim (Bool-cases (test c)) [
    | inl passes ↦ rw passes ((h.0, passes), where_chunk-All P test cs h.1)
    | inr fails ↦ rw fails (where_chunk-All P test cs h.1)
  ]

  module _ {F : Type 0} (P : Chunk V → Type 0) (documents : List Document)
      (score : Chunk V → F) where
    abbrev Joined : ChunkHit F → Type 0
    Joined hit = (c : Chunk V) × (d : Document) × P c × (hit ≡ to_hit c d (score c))

    join_one :
        (c : Chunk V) (cs : List (Chunk V)) (o : Option Document)
        → find_document c.document_id documents ≡ o
        → P c
        → All Joined (join_documents documents score cs)
        → All Joined (join_documents documents score (c ∷ cs))
    unfolding join_documents
    join_one c cs none e p rest = rw (e, join_documents) rest
    join_one c cs (some d) e p rest = rw (e, join_documents) ((c, d, p, refl), rest)

    join_documents-All :
        (cs : List (Chunk V)) → All P cs → All Joined (join_documents documents score cs)
    join_documents-All [] h = unfold join_documents in tt
    join_documents-All (c ∷ cs) h =
        join_one c cs (find_document c.document_id documents) refl h.0 (join_documents-All cs h.1)

and_left : (a b : Bool) → (a && b) ≡ true → a ≡ true
and_left a b h = ground arith

module _ {V F : Type 0} (floats : Floats F) (engine : Engine V F) (tenant_id k : ℕ)
    (db : Db V) where
  -- A chunk that the filter of a query has let through.
  abbrev Own : Chunk V → Type 0
  Own c = In c db.chunks × (c.tenant_id ≡ tenant_id)

  hits_of :
      (score : Chunk V → F) (cs : List (Chunk V))
      → All Own cs
      → All (FromTenant tenant_id db) (take k (join_documents db.documents score cs))
  unfolding to_hit
  hits_of score cs h = All-take (FromTenant tenant_id db) k (join_documents db.documents score cs) (
      All-imply (Joined Own db.documents score) (FromTenant tenant_id db)
        (join_documents db.documents score cs)
        (λ hit j.
          let (c, d, own, e) = j in
          (
            c,
            own.0,
            own.1,
            ap (λ (h : ChunkHit F). h.chunk_id) e,
            ap (λ (h : ChunkHit F). h.document_id) e,
            ap (λ (h : ChunkHit F). h.content) e,
          ))
        (join_documents-All Own db.documents score cs h))

  -- Every hit of a dense search is a stored chunk of the tenant, and there are at most `k`, if the
  -- index scan visits stored rows.
  pub dense_search-FromTenant :
      (query : V)
      → IsScan engine
      → All (FromTenant tenant_id db) (dense_search floats engine tenant_id query k db)
        × (length (dense_search floats engine tenant_id query k db) ≤ k)
  unfolding dense_search
  dense_search-FromTenant query is_scan = (
    hits_of _ _ (
        sorted-All (nearer floats engine query) Own _ (
          All-imply _ Own _ (λ c h. (h.0, eqb→eq _ _ h.1))
            (where_chunk-All (λ c. In c db.chunks) (λ c. c.tenant_id == tenant_id)
              (engine.scan query db.chunks) (is_scan.visits query db.chunks)))),
    length-take k _,
  )

  -- Every hit of a keyword search is a stored chunk of the tenant, and there are at most `k`.
  pub keyword_search-FromTenant :
      (query : Text)
      → All (FromTenant tenant_id db) (keyword_search floats engine tenant_id query k db)
        × (length (keyword_search floats engine tenant_id query k db) ≤ k)
  unfolding keyword_search
  keyword_search-FromTenant query = (
    hits_of _ _ (
        sorted-All (ranks_before floats engine query) Own _ (
          All-imply _ Own _ (λ c h. (h.0, eqb→eq _ _ (and_left _ _ h.1)))
            (where_chunk-All (λ c. In c db.chunks)
              (λ c. c.tenant_id == tenant_id && engine.matches c.content query) db.chunks
              (All-In db.chunks)))),
    length-take k _,
  )
