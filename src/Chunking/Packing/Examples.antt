-- ===== src/Chunking/Packing/Examples.antt =====
-- Runs of `chunk_blocks`.
use rag_knowledge_platform_f.Prelude.{none, some, List, [], ◌∷◌, ◌≡◌, refl, map}
use rag_knowledge_platform_f.Text.{codes, split, join, is_space}
use rag_knowledge_platform_f.Errors.{ok, ◌>>=◌}
use rag_knowledge_platform_f.Chunking.Sentences.{Block, sentences}
use rag_knowledge_platform_f.Chunking.Packing.{
  chunk_blocks, pack, pack_sentence, emit, append_sentence, finish, start, sum_tokens,
}

abbrev pub blocks : List Block
blocks =
    record {
      text = codes "One two. Three four!  Five\n six? Seven";
      meta = record { page = some 3; headings = some (codes "Intro" ∷ []) };
    }
    ∷ record {
      text = codes "Eight nine ten eleven twelve";
      meta = record { page = some 4; headings = none };
    }
    ∷ []

-- The last sentence has 5 words, 7 tokens, and is cut at 4 words by the limit of 6.
sentences-blocks :
    map (λ s. s.text) (sentences 6 blocks)
    ≡ codes "One two."
      ∷ codes "Three four!"
      ∷ codes "Five six?"
      ∷ codes "Seven"
      ∷ codes "Eight nine ten eleven"
      ∷ codes "twelve"
      ∷ []
unfolding sentences split join is_space
sentences-blocks = refl

chunk_blocks-blocks :
    (do ds ← chunk_blocks blocks 6 3; ok (map (λ d. d.text) ds))
    ≡ ok (
        codes "One two. Three four!"
        ∷ codes "Three four! Five six?"
        ∷ codes "Five six? Seven"
        ∷ codes "Seven Eight nine ten eleven"
        ∷ codes "twelve"
        ∷ [])
unfolding chunk_blocks sentences pack pack_sentence emit append_sentence finish start sum_tokens
    split join is_space
chunk_blocks-blocks = refl
