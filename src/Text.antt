-- ===== src/Text.antt =====
-- Python's `str` as the list of its code points, and the methods of it that the program calls.
-- A text literal of the source is `codes "..."`.
pub mod SplitJoin
pub mod Decimal
pub mod Stripped
use Prim.Native.Char.{code}
use Prim.Native.String
use rag_knowledge_platform_f.Prelude.{
  ℕ, String, Bool, true, false, ◌&&◌, ◌||◌, not, List, [], ◌∷◌, ◌++◌, leb, ◌==◌, if◌then◌else◌,
  is_empty, reverse, ◌≡◌, refl, arith,
}

abbrev pub Text : Type 0
Text = List ℕ

abbrev pub codes : String → Text
codes String.[] = []
codes (String.◌∷◌ c s) = code c ∷ codes s

-- `str.isspace` of one code point, which is also the class `\s` of `re`.
unfoldable pub is_space : ℕ → Bool
is_space c =
    (leb 9 c && leb c 13)
    || (leb 28 c && leb c 32)
    || c == 133
    || c == 160
    || c == 5760
    || (leb 8192 c && leb c 8202)
    || c == 8232
    || c == 8233
    || c == 8239
    || c == 8287
    || c == 12288

-- `str.split()`: `word` is the word being read.
pub split_from : Text → Text → List Text
split_from word [] = if is_empty word then [] else word ∷ []
split_from word (c ∷ text) =
    let rest = split_from (if is_space c then [] else word ++ c ∷ []) text in
    if is_space c && not (is_empty word) then word ∷ rest else rest

unfoldable pub split : Text → List Text
unfolding split_from is_space
split text = split_from [] text

-- `separator.join(texts)`.
unfoldable pub join : Text → List Text → Text
join separator [] = []
join separator (t ∷ []) = t
join separator (t ∷ u ∷ ts) = t ++ (separator ++ join separator (u ∷ ts))

unfoldable pub lstrip : Text → Text
unfolding is_space
lstrip [] = []
lstrip (c ∷ text) = let rest = lstrip text in if is_space c then rest else c ∷ text

-- `str.strip()`.
unfoldable pub strip : Text → Text
unfolding lstrip
strip text = reverse (lstrip (reverse (lstrip text)))

-- `==` of two texts.
unfoldable pub text_eq : Text → Text → Bool
text_eq [] [] = true
text_eq [] (d ∷ u) = false
text_eq (c ∷ t) [] = false
text_eq (c ∷ t) (d ∷ u) = c == d && text_eq t u

pub text_eq→eq : (t u : Text) → text_eq t u ≡ true → t ≡ u
unfolding text_eq
text_eq→eq [] [] h = refl
text_eq→eq [] (d ∷ u) h = cc
text_eq→eq (c ∷ t) [] h = cc
text_eq→eq (c ∷ t) (d ∷ u) h = ground (arith, text_eq→eq t u)

pub text_eq_refl : (t : Text) → text_eq t t ≡ true
unfolding text_eq
text_eq_refl [] = refl
text_eq_refl (c ∷ t) = ground (arith, text_eq_refl t)

pub text_eq_comm : (t u : Text) → text_eq t u ≡ text_eq u t
unfolding text_eq
text_eq_comm [] [] = refl
text_eq_comm [] (d ∷ u) = refl
text_eq_comm (c ∷ t) [] = refl
text_eq_comm (c ∷ t) (d ∷ u) = ground (arith, text_eq_comm t u)
