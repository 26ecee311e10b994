-- ===== src/Text/Stripped.antt =====
-- `str.strip()` and `"\n".join` keep the words of a text.
use rag_knowledge_platform_f.Prelude.{
  ℕ, ◌⊎◌, true, false, is_empty, List, [], ◌∷◌, ◌++◌, ◌≡◌, refl, sym, ap, ◌∙◌, All, All-append,
  append-nil, Bool-cases, if◌then◌else◌, inl, inr, reverse, reverse-append, reverse-reverse,
  reverse_snoc, subst,
}
use rag_knowledge_platform_f.Text.{Text, is_space, split, join, lstrip, strip}
use rag_knowledge_platform_f.Text.SplitJoin.{split-append_space, split_space}

abbrev IsBlank : Text → Type 0
IsBlank text = All (λ c. is_space c ≡ true) text

split-lstrip : (text : Text) → split (lstrip text) ≡ split text
unfolding lstrip
split-lstrip [] = refl
split-lstrip (c ∷ text) = elim (Bool-cases (is_space c)) [
  | inl space ↦ rw space (split-lstrip text ∙ sym (split_space c text space))
  | inr letter ↦ rw letter refl
]

-- What `lstrip` cuts off.
abbrev leading : Text → Text
leading [] = []
leading (c ∷ text) = let rest = leading text in if is_space c then c ∷ rest else []

leading-IsBlank : (text : Text) → IsBlank (leading text)
leading-IsBlank [] = tt
leading-IsBlank (c ∷ text) = elim (Bool-cases (is_space c)) [
  | inl space ↦ rw space (space, leading-IsBlank text)
  | inr letter ↦ rw letter tt
]

leading-lstrip : (text : Text) → leading text ++ lstrip text ≡ text
unfolding lstrip
leading-lstrip [] = refl
leading-lstrip (c ∷ text) = elim (Bool-cases (is_space c)) [
  | inl space ↦ rw space (ap (λ t. c ∷ t) (leading-lstrip text))
  | inr letter ↦ rw letter refl
]

pub split_nil : split [] ≡ []
unfolding split
split_nil = refl

newline-is_space : is_space 10 ≡ true
unfolding is_space
newline-is_space = refl

split-append_blank : (text blank : Text) → IsBlank blank → split (text ++ blank) ≡ split text
split-append_blank text [] h = ap split (append-nil text)
split-append_blank text (c ∷ blank) h =
    split-append_space text c blank h.0
    ∙ ap (λ ws. split text ++ ws) (split-append_blank [] blank h.1 ∙ split_nil)
    ∙ append-nil (split text)

reverse-IsBlank : (text : Text) → IsBlank text → IsBlank (reverse text)
reverse-IsBlank [] h = tt
reverse-IsBlank (c ∷ text) h = subst IsBlank (sym (reverse_snoc c text)) (
    All-append (λ d. is_space d ≡ true) (reverse text) (c ∷ []) (reverse-IsBlank text h.1)
      (h.0, tt))

split-rstrip : (text : Text) → split (reverse (lstrip (reverse text))) ≡ split text
split-rstrip text =
    let r = reverse text in
    sym (
      split-append_blank (reverse (lstrip r)) (reverse (leading r))
        (reverse-IsBlank (leading r) (leading-IsBlank r)))
    ∙ ap split (
        sym (reverse-append (leading r) (lstrip r))
        ∙ ap reverse (leading-lstrip r)
        ∙ reverse-reverse text)

pub split-strip : (text : Text) → split (strip text) ≡ split text
unfolding strip
split-strip text = split-rstrip (lstrip text) ∙ split-lstrip text

-- The words of some lines.
abbrev pub line_words : List Text → List Text
line_words [] = []
line_words (line ∷ lines) = split line ++ line_words lines

pub split-join_lines : (lines : List Text) → split (join (10 ∷ []) lines) ≡ line_words lines
unfolding join
split-join_lines [] = split_nil
split-join_lines (t ∷ []) = sym (append-nil (split t))
split-join_lines (t ∷ u ∷ lines) =
    split-append_space t 10 (join (10 ∷ []) (u ∷ lines)) newline-is_space
    ∙ ap (λ ws. split t ++ ws) (split-join_lines (u ∷ lines))

-- Some character of the text is not a space.
abbrev pub HasLetter : Text → Type 0
HasLetter text =
    (before after : Text) × (c : ℕ) × (text ≡ before ++ c ∷ after) × (is_space c ≡ false)

lstrip-HasLetter :
    (text : Text)
    → (lstrip text ≡ [])
      ⊎ ((c : ℕ) × (rest : Text) × (lstrip text ≡ c ∷ rest) × (is_space c ≡ false))
unfolding lstrip
lstrip-HasLetter [] = inl refl
lstrip-HasLetter (c ∷ text) = elim (Bool-cases (is_space c)) [
  | inl space ↦ rw space (lstrip-HasLetter text)
  | inr letter ↦ rw letter (inr (c, text, refl, letter))
]

-- What is left of a text that is not blank ends with a letter.
pub strip-HasLetter : (text : Text) → is_empty (strip text) ≡ false → HasLetter (strip text)
unfolding strip
strip-HasLetter text h = elim (lstrip-HasLetter (reverse (lstrip text))) [
  | inl blank ↦ let clash : true ≡ false = sym (ap (λ t. is_empty (reverse t)) blank) ∙ h in cc
  | inr (c, rest, cut, letter) ↦ (reverse rest, [], c, ap reverse cut ∙ reverse_snoc c rest, letter)
]
