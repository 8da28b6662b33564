-- ===== src/Projects/Text.antt =====
-- The operations of `str` that app/app/domain/workbench/projects.py calls, over lists of code points.
pub mod Strip
pub mod Split
use investment_backend.Base.{
  ℕ, zero, suc, ◌+◌, Bool, true, false, not, ◌&&◌, ◌||◌, Option, none, some, List, [], ◌∷◌, ◌++◌,
  length, take, leb, ◌==◌, if◌then◌else◌, is_empty,
}

abbrev pub Text : Type 0
Text = List ℕ

abbrev pub slash : ℕ
slash = 47

abbrev pub is_slash : ℕ → Bool
is_slash c = c == slash

abbrev pub backslash : ℕ
backslash = 92

abbrev pub between : ℕ → ℕ → ℕ → Bool
between a b c = leb a c && leb c b

-- `str.isspace` of one code point
unfoldable pub is_space : ℕ → Bool
is_space c =
    between 9 13 c
    || between 28 32 c
    || c == 133
    || c == 160
    || c == 5760
    || between 8192 8202 c
    || c == 8232
    || c == 8233
    || c == 8239
    || c == 8287
    || c == 12288

-- `text.lstrip(…)`, `text.rstrip(…)` and `text.strip(…)`, with a test for the characters to strip
abbrev pub lstrip : (ℕ → Bool) → Text → Text
lstrip p [] = []
lstrip p (c ∷ rest) = if p c then lstrip p rest else c ∷ rest

abbrev pub rstrip : (ℕ → Bool) → Text → Text
rstrip p [] = []
rstrip p (c ∷ rest) = let kept = rstrip p rest in if p c && is_empty kept then [] else c ∷ kept

abbrev pub strip : (ℕ → Bool) → Text → Text
strip p text = rstrip p (lstrip p text)

abbrev pub push : ℕ → List Text → List Text
push c [] = (c ∷ []) ∷ []
push c (part ∷ parts) = (c ∷ part) ∷ parts

-- `text.split(c)`
abbrev pub split : ℕ → Text → List Text
split sep [] = [] ∷ []
split sep (c ∷ rest) = if c == sep then [] ∷ split sep rest else push c (split sep rest)

-- `c.join(parts)`
abbrev pub join : ℕ → List Text → Text
join sep [] = []
join sep (part ∷ []) = part
join sep (part ∷ next ∷ parts) = part ++ (sep ∷ join sep (next ∷ parts))

-- `parts[-1]`
abbrev pub last_part : List Text → Text
last_part [] = []
last_part (part ∷ []) = part
last_part (part ∷ next ∷ parts) = last_part (next ∷ parts)

-- `a == b`
abbrev pub same_text : Text → Text → Bool
same_text [] [] = true
same_text (a ∷ xs) (b ∷ ys) = a == b && same_text xs ys
same_text _ _ = false

-- `text.startswith(prefix)`
abbrev pub starts_with : Text → Text → Bool
starts_with text [] = true
starts_with [] (b ∷ ys) = false
starts_with (a ∷ xs) (b ∷ ys) = a == b && starts_with xs ys

-- `text.replace(a, b)`
abbrev pub replace : ℕ → ℕ → Text → Text
replace a b [] = []
replace a b (c ∷ rest) = (if c == a then b else c) ∷ replace a b rest

-- `text[n:]`
abbrev pub drop : ℕ → Text → Text
drop zero text = text
drop (suc n) [] = []
drop (suc n) (c ∷ rest) = drop n rest

-- `text[n]`; `none` is the `IndexError`.
abbrev pub nth : ℕ → Text → Option ℕ
nth n [] = none
nth zero (c ∷ rest) = some c
nth (suc n) (c ∷ rest) = nth n rest

-- The words of `text.split()`: `word` is the one that is being read.
abbrev pub end_word : Text → List Text → List Text
end_word [] words = words
end_word (c ∷ word) words = (c ∷ word) ∷ words

abbrev pub words_from : Text → Text → List Text
words_from word [] = end_word word []
words_from word (c ∷ rest) =
    if is_space c then end_word word (words_from [] rest) else words_from (word ++ (c ∷ [])) rest

abbrev pub words_of : Text → List Text
words_of text = words_from [] text
