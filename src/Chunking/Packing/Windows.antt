-- ===== src/Chunking/Packing/Windows.antt =====
-- What `emit` and one round of the loop do.
use rag_knowledge_platform_f.Prelude.{
  ℕ, ◌+◌, ◌≤◌, ◌<◌, Bool, true, false, not, ◌&&◌, List, [], ◌∷◌, ◌++◌, ◌≡◌, refl, sym, ap, ◌∙◌, ◌⊎◌,
  inl, inr, reverse, reverse_snoc, length, length-append, is_empty, ltb, ltb→le, ltb→lt, eqb_refl,
  subst, ◌==◌, arith, Bool-cases, append_assoc, append-nil, reverse-reverse,
}
use rag_knowledge_platform_f.Errors.{ok}
use rag_knowledge_platform_f.Chunking.Sentences.{Sentence}
use rag_knowledge_platform_f.Chunking.Packing.{
  ChunkMeta, ChunkDraft, merge_meta, sum_tokens, Packer, carry, carry_over, draft_of, emit,
  append_sentence, pack_sentence,
}
use rag_knowledge_platform_f.Chunking.Packing.Promise.{IsDraft, IsCarried, Stops, IsLongest}

pub sum_tokens-append :
    (ss ts : List Sentence) → sum_tokens (ss ++ ts) ≡ sum_tokens ss + sum_tokens ts
unfolding sum_tokens
sum_tokens-append [] ts = omega arith
sum_tokens-append (s ∷ ss) ts = omega (arith, sum_tokens-append ss ts)

-- The loop carries the end of what it walks backwards.
carry_lem :
    (overlap : ℕ) (rs carried : List Sentence) (budget : ℕ)
    → budget ≡ sum_tokens carried
    → budget ≤ overlap
    → (dropped : List Sentence) × (dropped ++ carry overlap rs carried budget
        ≡ reverse rs ++ carried)
      × (sum_tokens (carry overlap rs carried budget) ≤ overlap)
      × ((dropped ≡ []) ⊎ Stops overlap dropped (carry overlap rs carried budget))
unfolding carry
carry_lem overlap [] carried budget e le = ([], refl, omega arith, inl refl)
carry_lem overlap (s ∷ rs) carried budget e le =
    elim (Bool-cases (ltb overlap (budget + s.tokens))) [
      | inl over ↦ (
        reverse (s ∷ rs),
        rw over refl,
        rw over (omega arith),
        rw over (inr (reverse rs, s, reverse_snoc s rs, omega (arith, e, ltb→lt overlap _ over))),
      )
      | inr fits ↦
          let (dropped, parts, within, stops) =
            carry_lem overlap rs (s ∷ carried) (budget + s.tokens)
              (unfold sum_tokens in omega arith) (ltb→le _ _ fits) in
          (
            dropped,
            rw fits (
                parts
                ∙ sym (append_assoc (reverse rs) (s ∷ []) carried)
                ∙ ap (λ t. t ++ carried) (sym (reverse_snoc s rs))),
            rw fits within,
            rw fits stops,
          )
    ]

length-suffix :
    (dropped carried w : List Sentence)
    → dropped ++ carried ≡ w
    → (length carried == length w) ≡ false
    → length carried < length w
length-suffix dropped carried w e ne =
    let measure = ap length e in ground (arith, measure, length-append dropped carried)

nothing-IsCarried : (overlap : ℕ) (w : List Sentence) → is_empty w ≡ false → IsCarried overlap w []
nothing-IsCarried overlap [] h = cc
nothing-IsCarried overlap (s ∷ w) h = record {
  dropped = s ∷ w;
  suffix = append-nil (s ∷ w);
  shorter = omega arith;
  within = unfold sum_tokens in omega arith;
}

-- What `emit` leaves is the end of the window, shorter than it, and within the overlap.
pub carry_over-IsCarried :
    (carry_overlap : Bool) (overlap : ℕ) (w : List Sentence)
    → is_empty w ≡ false
    → IsCarried overlap w (carry_over carry_overlap overlap w)
unfolding carry_over
carry_over-IsCarried false overlap w h = nothing-IsCarried overlap w h
carry_over-IsCarried true overlap w h =
    let carried = carry overlap (reverse w) [] 0 in
    let (dropped, parts, within, stops) =
      carry_lem overlap (reverse w) [] 0 (unfold sum_tokens in refl) (omega arith) in
    let suffix = parts ∙ append-nil (reverse (reverse w)) ∙ reverse-reverse w in
    elim (Bool-cases (length carried == length w)) [
      | inl whole ↦ rw whole (nothing-IsCarried overlap w h)
      | inr shorter ↦ rw shorter (record {
        dropped = dropped;
        suffix = suffix;
        shorter = length-suffix dropped carried w suffix shorter;
        within = within;
      })
    ]

length-snoc_ne :
    (front carried w : List Sentence) (s : Sentence)
    → (front ++ s ∷ []) ++ carried ≡ w
    → (length carried == length w) ≡ false
length-snoc_ne front carried w s e =
    let measure = ap length e in
    ground (arith, measure, length-append (front ++ s ∷ []) carried, length-append front (s ∷ []))

-- Before a further sentence, `emit` carries as much as it may.
pub carry_over-IsLongest :
    (overlap : ℕ) (w rest : List Sentence) (s : Sentence)
    → IsLongest overlap w (s ∷ rest) (carry_over true overlap w)
unfolding carry_over
carry_over-IsLongest overlap w rest s =
    let carried = carry overlap (reverse w) [] 0 in
    let (dropped, parts, within, stops) =
      carry_lem overlap (reverse w) [] 0 (unfold sum_tokens in refl) (omega arith) in
    let suffix = parts ∙ append-nil (reverse (reverse w)) ∙ reverse-reverse w in
    elim stops [
      | inl nothing ↦
          let whole : carried ≡ w = ap (λ d. d ++ carried) (sym nothing) ∙ suffix in
          let same : (length carried == length w) ≡ true =
            ap (λ c. length c == length w) whole ∙ eqb_refl (length w) in
          rw same (inr (refl, subst (λ c. sum_tokens c ≤ overlap) whole within))
      | inr (front, t, e, over) ↦
          let differ = length-snoc_ne front carried w t (ap (λ d. d ++ carried) (sym e) ∙ suffix) in
          rw differ (inl (dropped, suffix, (front, t, e, over)))
    ]

merge_meta_total :
    (w : List Sentence) → is_empty w ≡ false → (m : ChunkMeta) × (merge_meta w ≡ ok m)
unfolding merge_meta
merge_meta_total [] h = cc
merge_meta_total (s ∷ w) h = (_, refl)

-- The state in which `chunks` is written, and the window `w` is being filled.
abbrev pub filling : List ChunkDraft → List Sentence → Packer
filling chunks w = record {
  chunks = chunks;
  current = w;
  current_tokens = sum_tokens w;
  has_new = true;
}

-- `emit` writes the draft of the window, and cannot raise on a window that holds a sentence.
pub emit_lem :
    (carry_overlap : Bool) (overlap : ℕ) (chunks : List ChunkDraft) (w : List Sentence)
    → is_empty w ≡ false
    → (d : ChunkDraft) × IsDraft w d
      × (emit carry_overlap overlap (filling chunks w)
          ≡ ok (record {
            chunks = chunks ++ d ∷ [];
            current = carry_over carry_overlap overlap w;
            current_tokens = sum_tokens (carry_over carry_overlap overlap w);
            has_new = false;
          }))
unfolding emit draft_of
emit_lem carry_overlap overlap chunks w h =
    let (m, e) = merge_meta_total w h in (draft_of w (sum_tokens w) m, (refl, refl, e), rw e)

append_sentence-filling :
    (s : Sentence) (chunks : List ChunkDraft) (w : List Sentence) (b : Bool)
    → append_sentence s
        (record { chunks = chunks; current = w; current_tokens = sum_tokens w; has_new = b })
      ≡ filling chunks (w ++ s ∷ [])
unfolding append_sentence
append_sentence-filling s chunks w b =
    let tokens : sum_tokens w + s.tokens ≡ sum_tokens (w ++ s ∷ []) =
      rw (sum_tokens-append w (s ∷ [])) (unfold sum_tokens in omega arith) in
    rw tokens

-- A sentence that fits extends the window.
pub pack_sentence_fits :
    (target overlap : ℕ) (s : Sentence) (chunks : List ChunkDraft) (w : List Sentence)
    → (is_empty w ≡ true) ⊎ (sum_tokens w + s.tokens ≤ target)
    → pack_sentence target overlap s (filling chunks w) ≡ ok (filling chunks (w ++ s ∷ []))
unfolding pack_sentence
pack_sentence_fits target overlap s chunks w h =
    let kept : (not (is_empty w) && ltb target (sum_tokens w + s.tokens)) ≡ false = ground arith in
    rw kept (ap ok (append_sentence-filling s chunks w true))

-- A sentence that does not fit closes the window, and begins the next behind the overlap.
pub pack_sentence_emits :
    (target overlap : ℕ) (s : Sentence) (chunks : List ChunkDraft) (w : List Sentence)
    → is_empty w ≡ false
    → target < sum_tokens w + s.tokens
    → (d : ChunkDraft) × IsDraft w d
      × (pack_sentence target overlap s (filling chunks w)
          ≡ ok (filling (chunks ++ d ∷ []) (carry_over true overlap w ++ s ∷ [])))
unfolding pack_sentence
pack_sentence_emits target overlap s chunks w h over =
    let cut : (not (is_empty w) && ltb target (sum_tokens w + s.tokens)) ≡ true = ground arith in
    let (d, draft, emitted) = emit_lem true overlap chunks w h in
    (
      d,
      draft,
      rw (cut, emitted)
          (ap ok (append_sentence-filling s (chunks ++ d ∷ []) (carry_over true overlap w) false)),
    )
