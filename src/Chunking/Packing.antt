-- ===== src/Chunking/Packing.antt =====
-- `_merge_meta` and `chunk_blocks` of ingestion/chunking.py. The variables that `emit` shares with
-- the loop are the fields of `Packer`.
pub mod Promise
pub mod Windows
pub mod Progress
mod Examples
use rag_knowledge_platform_f.Prelude.{
  ℕ, ◌+◌, Bool, true, false, ◌&&◌, not, Option, none, some, List, [], ◌∷◌, ◌++◌, map, reverse,
  length, ltb, leb, ◌==◌, if◌then◌else◌, is_empty,
}
use rag_knowledge_platform_f.Text.{Text, join}
use rag_knowledge_platform_f.Errors.{Result, ok, err, value_error, index_error, ◌>>=◌}
use rag_knowledge_platform_f.Chunking.Sentences.{Meta, Block, Sentence, sentences}

-- `chunks.meta`: a dict with the keys `page_start`, `page_end` and `headings`, if they are set.
pub record ChunkMeta : Type 0 where
  pub page_start : Option ℕ
  pub page_end : Option ℕ
  pub headings : Option (List Text)

-- `ChunkDraft`.
pub record ChunkDraft : Type 0 where
  pub text : Text
  pub token_count : ℕ
  pub meta : ChunkMeta

insert_page : ℕ → List ℕ → List ℕ
insert_page p [] = p ∷ []
insert_page p (q ∷ qs) =
    if ltb p q then p ∷ q ∷ qs else if p == q then q ∷ qs else q ∷ insert_page p qs

insert_page_of : Option ℕ → List ℕ → List ℕ
insert_page_of none ps = ps
insert_page_of (some p) ps = insert_page p ps

-- `sorted({s.meta["page"] for s in sentences if "page" in s.meta})`.
pub pages_of : List Sentence → List ℕ
unfolding insert_page_of insert_page
pages_of [] = []
pages_of (s ∷ ss) = insert_page_of s.meta.page (pages_of ss)

first : List ℕ → Option ℕ
first [] = none
first (p ∷ ps) = some p

last : List ℕ → Option ℕ
last [] = none
last (p ∷ []) = some p
last (p ∷ q ∷ ps) = last (q ∷ ps)

-- `if headings:` keeps neither `None` nor the empty list.
if_any : Option (List Text) → Option (List Text)
if_any none = none
if_any (some []) = none
if_any (some (h ∷ hs)) = some (h ∷ hs)

pub merge_meta : List Sentence → Result ChunkMeta
unfolding first last if_any
merge_meta [] = err index_error
merge_meta (s ∷ ss) =
    let pages = pages_of (s ∷ ss) in
    ok (record {
      page_start = first pages;
      page_end = last pages;
      headings = if_any s.meta.headings;
    })

pub sum_tokens : List Sentence → ℕ
sum_tokens [] = 0
sum_tokens (s ∷ ss) = s.tokens + sum_tokens ss

-- The variables `chunks`, `current`, `current_tokens` and `has_new`.
pub record Packer : Type 0 where
  pub chunks : List ChunkDraft
  pub current : List Sentence
  pub current_tokens : ℕ
  pub has_new : Bool

-- The loop over `reversed(current)` that fills `carried`.
pub carry : ℕ → List Sentence → List Sentence → ℕ → List Sentence
carry overlap [] carried budget = carried
carry overlap (s ∷ ss) carried budget =
    let more = carry overlap ss (s ∷ carried) (budget + s.tokens) in
    if ltb overlap (budget + s.tokens) then carried else more

-- What `emit` leaves in `current`.
pub carry_over : Bool → ℕ → List Sentence → List Sentence
unfolding carry
carry_over false overlap current = []
carry_over true overlap current =
    let carried = carry overlap (reverse current) [] 0 in
    if length carried == length current then [] else carried

draft_of : List Sentence → ℕ → ChunkMeta → ChunkDraft
draft_of current tokens meta = record {
  text = join (32 ∷ []) (map (λ s. s.text) current);
  token_count = tokens;
  meta = meta;
}

pub emit : Bool → ℕ → Packer → Result Packer
unfolding draft_of carry_over merge_meta
emit carry_overlap overlap p = do
  meta ← merge_meta p.current
  let carried = carry_over carry_overlap overlap p.current
  ok (record {
    chunks = p.chunks ++ draft_of p.current p.current_tokens meta ∷ [];
    current = carried;
    current_tokens = sum_tokens carried;
    has_new = false;
  })

pub append_sentence : Sentence → Packer → Packer
append_sentence s p = record p {
  current = p.current ++ s ∷ [];
  current_tokens = p.current_tokens + s.tokens;
  has_new = true;
}

-- The body of the loop over the sentences.
pub pack_sentence : ℕ → ℕ → Sentence → Packer → Result Packer
pack_sentence target overlap s p = do
  p' ←
      if not (is_empty p.current) && ltb target (p.current_tokens + s.tokens)
      then emit true overlap p
      else ok p
  ok (append_sentence s p')

pub pack : ℕ → ℕ → List Sentence → Packer → Result Packer
pack target overlap [] p = ok p
pack target overlap (s ∷ ss) p = do p' ← pack_sentence target overlap s p; pack target overlap ss p'

-- The last lines of `chunk_blocks`.
pub finish : ℕ → Packer → Result (List ChunkDraft)
finish overlap p = do p' ← if p.has_new then emit false overlap p else ok p; ok p'.chunks

pub start : Packer
start = record { chunks = []; current = []; current_tokens = 0; has_new = false }

unfoldable pub chunk_blocks :
    List Block → (target_tokens overlap_tokens : ℕ) → Result (List ChunkDraft)
chunk_blocks blocks target overlap =
    if leb target overlap
    then err value_error
    else (do p ← pack target overlap (sentences target blocks) start; finish overlap p)
