-- ===== src/Text/SplitJoin.antt =====
-- `str.split()` undoes `" ".join` on words, and yields only words.
use rag_knowledge_platform_f.Prelude.{
  ℕ, true, false, List, [], ◌∷◌, ◌++◌, ◌≡◌, refl, ap, ◌∙◌, All, All-append, is_empty, append_assoc,
  append-nil, Bool-cases, inl, inr,
}
use rag_knowledge_platform_f.Text.{Text, is_space, split, split_from, join}

-- A word: not empty, and without whitespace.
abbrev pub IsWord : Text → Type 0
IsWord w = (is_empty w ≡ false) × All (λ c. is_space c ≡ false) w

pub space-is_space : is_space 32 ≡ true
unfolding is_space
space-is_space = refl

-- Reading the letters of a word extends the word that is being read.
split_from-word :
    (u w rest : Text)
    → All (λ c. is_space c ≡ false) w
    → split_from u (w ++ rest) ≡ split_from (u ++ w) rest
unfolding split_from
split_from-word u [] rest h = rw append-nil
split_from-word u (c ∷ w) rest h =
    rw h.0 (rw (split_from-word (u ++ c ∷ []) w rest h.1) (rw append_assoc))

split_from_space :
    (w rest : Text) → is_empty w ≡ false → split_from w (32 ∷ rest) ≡ w ∷ split_from [] rest
unfolding split_from
split_from_space w rest h = rw (space-is_space, h)

split_from_end : (w : Text) → is_empty w ≡ false → split_from w [] ≡ w ∷ []
unfolding split_from
split_from_end w h = rw h

split_from-join :
    (w : Text) (ws : List Text)
    → All IsWord (w ∷ ws)
    → split_from [] (join (32 ∷ []) (w ∷ ws)) ≡ w ∷ ws
unfolding join
split_from-join w [] h =
    let whole = split_from-word [] w [] h.0.1 in rw (append-nil w) at whole ∙ split_from_end w h.0.0
split_from-join w (v ∷ ws) h =
    split_from-word [] w (32 ∷ join (32 ∷ []) (v ∷ ws)) h.0.1
    ∙ split_from_space w (join (32 ∷ []) (v ∷ ws)) h.0.0
    ∙ ap (λ t. w ∷ t) (split_from-join v ws h.1)

pub split-join : (ws : List Text) → All IsWord ws → split (join (32 ∷ []) ws) ≡ ws
unfolding split
split-join [] h = unfold join split_from in refl
split-join (w ∷ ws) h = split_from-join w ws h

split_from-IsWord :
    (u text : Text) → All (λ c. is_space c ≡ false) u → All IsWord (split_from u text)
unfolding split_from
split_from-IsWord u [] h = elim (Bool-cases (is_empty u)) [
  | inl e ↦ rw e tt
  | inr e ↦ rw e ((e, h), tt)
]
split_from-IsWord u (c ∷ text) h = elim (Bool-cases (is_space c)) [
  | inl space ↦ rw space (elim (Bool-cases (is_empty u)) [
    | inl e ↦ rw e (split_from-IsWord [] text tt)
    | inr e ↦ rw e ((e, h), split_from-IsWord [] text tt)
  ])
  | inr letter ↦ rw letter (
      split_from-IsWord (u ++ c ∷ []) text
        (All-append (λ d. is_space d ≡ false) u (c ∷ []) h (letter, tt)))
]

pub split-IsWord : (text : Text) → All IsWord (split text)
unfolding split
split-IsWord text = split_from-IsWord [] text tt

split_from-append_space :
    (u a : Text) (c : ℕ) (b : Text)
    → is_space c ≡ true
    → split_from u (a ++ c ∷ b) ≡ split_from u a ++ split_from [] b
unfolding split_from
split_from-append_space u [] c b h = elim (Bool-cases (is_empty u)) [
  | inl e ↦ rw (h, e)
  | inr e ↦ rw (h, e)
]
split_from-append_space u (d ∷ a) c b h = elim (Bool-cases (is_space d)) [
  | inl space ↦ rw space (elim (Bool-cases (is_empty u)) [
    | inl e ↦ rw e (split_from-append_space [] a c b h)
    | inr e ↦ rw e (ap (λ t. u ∷ t) (split_from-append_space [] a c b h))
  ])
  | inr letter ↦ rw letter (split_from-append_space (u ++ d ∷ []) a c b h)
]

-- Whitespace separates what stands before it from what stands behind it.
pub split-append_space :
    (a : Text) (c : ℕ) (b : Text) → is_space c ≡ true → split (a ++ c ∷ b) ≡ split a ++ split b
unfolding split
split-append_space a c b h = split_from-append_space [] a c b h

pub split_space : (c : ℕ) (b : Text) → is_space c ≡ true → split (c ∷ b) ≡ split b
split_space c b h = split-append_space [] c b h ∙ unfold split in refl
