-- ===== src/Tests/Uploads.antt =====
-- A batch of four files: one of an unknown type, one that the broker refuses, one too large.
use rag_knowledge_platform_f.Prelude.{◌+◌, not, ◌==◌, none, some, List, [], ◌∷◌, ◌++◌, ◌≡◌, length}
use rag_knowledge_platform_f.Text.{codes}
use rag_knowledge_platform_f.Errors.{ok}
use rag_knowledge_platform_f.Documents.{Names, UploadFile, BatchOut, upload_documents_batch}
use rag_knowledge_platform_f.Documents.Batch.{accepted_ids, upload_documents_batch-IsIsolated}
use rag_knowledge_platform_f.Tests.Pipeline.{ports, service, db}

abbrev names : Names
names = record { lower = λ t. t; repr = λ t. t }

abbrev files : List UploadFile
files =
    record { filename = some (codes "notes.md"); raw = codes "One." }
    ∷ record { filename = some (codes "notes.txt"); raw = codes "Two." }
    ∷ record { filename = some (codes "a.b.html"); raw = codes "Three." }
    ∷ record { filename = none; raw = codes "Far too large." }
    ∷ []

upload_documents_batch-IsIsolated_example :
    (out : BatchOut) × ((upload_documents_batch ports service names
        (λ id. not (id == 22))
        10
        1
        5
        (λ k. k + 20)
        files
        db
        (3 ∷ [])).0
      ≡ ok out)
    × (length out.results ≡ length files)
    × (out.accepted + out.rejected ≡ length files)
    × ((upload_documents_batch ports service names
          (λ id. not (id == 22))
          10
          1
          5
          (λ k. k + 20)
          files
          db
          (3 ∷ [])).1.1
        ≡ (3 ∷ []) ++ accepted_ids out.results)
upload_documents_batch-IsIsolated_example =
    upload_documents_batch-IsIsolated ports service names (λ id. not (id == 22)) 10 1 5
      (λ k. k + 20) files db (3 ∷ [])
