-- ===== src/Tests/Chunks.antt =====
-- Chunking, at a small document.
use rag_knowledge_platform_f.Prelude.{◌+◌, ◌≤◌, none, some, List, [], ◌∷◌, ◌≡◌, All, length, arith}
use rag_knowledge_platform_f.Text.{codes}
use rag_knowledge_platform_f.Errors.{ok}
use rag_knowledge_platform_f.Chunking.Sentences.{Block, sentences}
use rag_knowledge_platform_f.Chunking.Sentences.Bounds.{IsFitting, sentences-IsFitting}
use rag_knowledge_platform_f.Chunking.Sentences.Coverage.{block_words}
use rag_knowledge_platform_f.Chunking.Packing.{ChunkDraft, chunk_blocks}
use rag_knowledge_platform_f.Chunking.Packing.Promise.{Packed}
use rag_knowledge_platform_f.Chunking.Contract.{
  WordCover, chunk_blocks-Packed, chunk_blocks_bounded, chunk_blocks-WordCover,
}

abbrev blocks : List Block
blocks =
    record { text = codes "One two. Three four!"; meta = record { page = some 3; headings = none } }
    ∷ record { text = codes "Five six seven"; meta = record { page = none; headings = none } }
    ∷ []

sentences-IsFitting_example : All (IsFitting 6) (sentences 6 blocks)
sentences-IsFitting_example = sentences-IsFitting 6 blocks (omega arith)

chunk_blocks-Packed_example :
    (ds : List ChunkDraft) × (chunk_blocks blocks 6 3 ≡ ok ds)
    × Packed 6 3 [] (sentences 6 blocks) ds
chunk_blocks-Packed_example = chunk_blocks-Packed blocks 6 3 (omega arith)

abbrev drafts : List ChunkDraft
drafts = chunk_blocks-Packed_example.0

chunk_blocks_bounded_example :
    All (λ d. d.token_count ≤ 6 + 3) drafts × (length drafts ≤ length (sentences 6 blocks))
chunk_blocks_bounded_example = chunk_blocks_bounded blocks 6 3 drafts chunk_blocks-Packed_example.1

chunk_blocks-WordCover_example : WordCover [] (block_words blocks) drafts
chunk_blocks-WordCover_example =
    chunk_blocks-WordCover blocks 6 3 drafts chunk_blocks-Packed_example.1
