-- ===== src/Tests/Reading.antt =====
-- Reading, listing and deleting documents.
use rag_knowledge_platform_f.Prelude.{
  ℕ, ◌+◌, ◌*◌, ◌≤◌, Option, false, none, some, [], ◌∷◌, ltb, ◌==◌, if◌then◌else◌, arith,
}
use rag_knowledge_platform_f.Database.{Status, Document, Db}
use rag_knowledge_platform_f.Documents.Owned.{documents_of, list_documents, delete_document}
use rag_knowledge_platform_f.Documents.Owned.Listing.{read_pages, IsListing, read_pages-IsListing}
use rag_knowledge_platform_f.Documents.Owned.Deleting.{Deletes, delete_document-Deletes}
use rag_knowledge_platform_f.Documents.Events.{event_stream}
use rag_knowledge_platform_f.Documents.Events.Protocol.{Ends, event_stream-Ends}
use rag_knowledge_platform_f.Tests.Search.{db, document}
use rag_knowledge_platform_f.Tests.Requests.{tenant}

-- Three documents of tenant 1 and one of tenant 2.
abbrev many : Db ℕ
many = record db {
  documents =
      document 7 1
      ∷ record (document 9 1) { created_at = 5 }
      ∷ document 8 2
      ∷ record (document 6 1) { created_at = 3 }
      ∷ [];
}

few : (list_documents 2 0 tenant many).total ≤ 2 * 2
unfolding list_documents documents_of
few = omega arith

read_pages-IsListing_example : IsListing 2 tenant many (read_pages 2 tenant many 2 0)
read_pages-IsListing_example = read_pages-IsListing 2 tenant many 2 few

delete_document-Deletes_example :
    Deletes 7 8 tenant db (delete_document (λ id. id ∷ []) 7 tenant db)
delete_document-Deletes_example =
    delete_document-Deletes 7 8 tenant db (λ id. id ∷ []) (λ e. absurd (omega (arith, e)))

-- The document is being processed until the fourth poll.
abbrev row_at : ℕ → Option Document
row_at k = some (record (document 7 1) {
  status =
      if k == 0 then Status.pending else if ltb k 3 then Status.processing else Status.completed;
})

event_stream-Ends_example :
    Ends none (event_stream row_at (λ k. 1000 + 2000 * k) (λ k. false) 1 1000 152)
event_stream-Ends_example =
    event_stream-Ends row_at (λ k. 1000 + 2000 * k) (λ k. false) 1 1000 (λ j. omega arith)
