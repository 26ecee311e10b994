-- ===== src/Chunking/Packing/Promise.antt =====
-- What packing promises, as a relation between the sentences and the chunks.
use rag_knowledge_platform_f.Prelude.{
  ℕ, ◌+◌, ◌≤◌, ◌<◌, false, List, [], ◌∷◌, ◌++◌, ◌≡◌, ◌⊎◌, map, length, is_empty,
}
use rag_knowledge_platform_f.Text.{join}
use rag_knowledge_platform_f.Errors.{ok}
use rag_knowledge_platform_f.Chunking.Sentences.{Sentence}
use rag_knowledge_platform_f.Chunking.Packing.{ChunkDraft, merge_meta, sum_tokens}

-- The draft of a window of sentences.
abbrev pub IsDraft : List Sentence → ChunkDraft → Type 0
IsDraft w d =
    (d.text ≡ join (32 ∷ []) (map (λ s. s.text) w))
    × (d.token_count ≡ sum_tokens w)
    × (merge_meta w ≡ ok d.meta)

-- The sentences `carried` into the next window end this one, are fewer, and keep to the budget.
pub record IsCarried (overlap : ℕ) (w carried : List Sentence) : Type 0 where
  pub dropped : List Sentence
  pub suffix : dropped ++ carried ≡ w
  pub shorter : length carried < length w
  pub within : sum_tokens carried ≤ overlap

-- The sentence before those that are carried would exceed the budget.
abbrev pub Stops : ℕ → (dropped carried : List Sentence) → Type 0
Stops overlap dropped carried =
    (front : List Sentence) × (s : Sentence) × (dropped ≡ front ++ s ∷ [])
    × (overlap < sum_tokens carried + s.tokens)

-- As much of the window as the budget allows is carried; of a window that is within the budget as a
-- whole nothing is, and nothing is carried behind the last window.
abbrev pub IsLongest : ℕ → List Sentence → (rest carried : List Sentence) → Type 0
IsLongest overlap w [] carried = carried ≡ []
IsLongest overlap w (s ∷ rest) carried =
    ((dropped : List Sentence) × (dropped ++ carried ≡ w) × Stops overlap dropped carried)
    ⊎ ((carried ≡ []) × (sum_tokens w ≤ overlap))

-- A window is over the target only if its one new sentence does not fit behind the overlap.
abbrev pub Fits : ℕ → ℕ → List Sentence → List Sentence → Type 0
Fits target overlap carried new =
    (sum_tokens (carried ++ new) ≤ target)
    ⊎ ((length new ≡ 1) × (sum_tokens (carried ++ new) ≤ target + overlap))

-- A window ends only where the sentences do, or before a sentence that would exceed the target.
abbrev pub IsFull : ℕ → List Sentence → List Sentence → Type 0
IsFull target w [] = Unit
IsFull target w (s ∷ rest) = target < sum_tokens w + s.tokens

-- The sentences `todo`, packed behind the sentences `carried` of the window before.
pub data Packed (target overlap : ℕ)
    : List Sentence → List Sentence → List ChunkDraft → Type 0 where
  done : {carried : List Sentence} → Packed target overlap carried [] []
  chunk :
      {carried todo : List Sentence} {ds : List ChunkDraft} (new rest carried' : List Sentence)
      (d : ChunkDraft)
      → todo ≡ new ++ rest
      → is_empty new ≡ false
      → IsDraft (carried ++ new) d
      → Fits target overlap carried new
      → IsFull target (carried ++ new) rest
      → IsCarried overlap (carried ++ new) carried'
      → IsLongest overlap (carried ++ new) rest carried'
      → Packed target overlap carried' rest ds
      → Packed target overlap carried todo (d ∷ ds)
