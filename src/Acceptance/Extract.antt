-- ===== src/Acceptance/Extract.antt =====
-- `_extract_json` and `_POSITIONING` of app/app/application/workbench/acceptance.py; `json.loads` is
-- an argument, which answers `none` where it raises `JSONDecodeError`.
use investment_backend.Base.{
  ℕ, ◌+◌, ◌-◌, Bool, true, false, ◌&&◌, ◌||◌, Option, none, some, List, [], ◌∷◌, ◌==◌, any,
  if◌then◌else◌,
}
use investment_backend.Projects.Text.{
  Text, between, is_space, lstrip, rstrip, strip, starts_with, drop,
}
use investment_backend.Acceptance.Json.{Json}

-- Three backquotes
abbrev pub fence : Text
fence = 96 ∷ 96 ∷ 96 ∷ []

-- `re.sub(r"^```[a-zA-Z]*\s*", "", t)`
unfoldable pub without_opening : Text → Text
unfolding is_space
without_opening text =
    if starts_with text fence
    then lstrip is_space (lstrip (λ c. between 65 90 c || between 97 122 c) (drop 3 text))
    else text

abbrev pub is_fence : Text → Bool
is_fence (a ∷ b ∷ c ∷ []) = a == 96 && b == 96 && c == 96
is_fence _ = false

abbrev pub before_fence : Text → Option Text
before_fence [] = none
before_fence (c ∷ rest) =
    let found = before_fence rest in
    if is_fence (c ∷ rest)
    then some []
    else elim found [ none ↦ none | some before ↦ some (c ∷ before) ]

-- `re.sub(r"\s*```$", "", t)`
unfoldable pub without_closing : Text → Text
unfolding is_space
without_closing text = elim (before_fence text) [
  | none ↦ text
  | some before ↦ rstrip is_space before
]

-- The text from the first `{`
abbrev pub from_brace : Text → Text
from_brace [] = []
from_brace (c ∷ rest) = if c == 123 then c ∷ rest else from_brace rest

-- The beginning of the text up to the brace that closes `depth` open ones
abbrev pub balanced : ℕ → Text → Option Text
balanced depth [] = none
balanced depth (c ∷ rest) =
    let depth' = if c == 123 then depth + 1 else if c == 125 then depth - 1 else depth in
    let later = balanced depth' rest in
    if c == 125 && depth' == 0
    then some (c ∷ [])
    else elim later [ none ↦ none | some more ↦ some (c ∷ more) ]

-- `_extract_json`
unfoldable pub extract_json : (Text → Option Json) → Text → Option Json
unfolding is_space without_opening without_closing
extract_json loads text =
    let t = strip is_space text in
    let bare = if starts_with t fence then without_closing (without_opening t) else t in
    elim (loads bare) [
      | some value ↦ some value
      | none ↦ elim (balanced 0 (from_brace bare)) [ none ↦ none | some part ↦ loads part ]
    ]

-- Upper and lower case as `re.I` takes them, for the letters of ASCII
abbrev pub fold_case : ℕ → ℕ
fold_case c =
    if between 65 90 c
    then c + 32
    else if c == 304 || c == 305
    then 105
    else if c == 383
    then 115
    else if c == 8490
    then 107
    else c

abbrev pub begins_folded : Text → Text → Bool
begins_folded text [] = true
begins_folded [] (p ∷ phrase) = false
begins_folded (c ∷ text) (p ∷ phrase) = fold_case c == p && begins_folded text phrase

-- The words that `_POSITIONING` lists, one alternative after the other
unfoldable pub phrases : List Text
phrases =
    (24378 ∷ 20080 ∷ 20837 ∷ [])
    ∷ (24378 ∷ 21334 ∷ 20986 ∷ [])
    ∷ (24378 ∷ 22686 ∷ 25345 ∷ [])
    ∷ (24378 ∷ 20943 ∷ 25345 ∷ [])
    ∷ (24378 ∷ 25512 ∷ 33616 ∷ [])
    ∷ (24378 ∷ 28872 ∷ 20080 ∷ 20837 ∷ [])
    ∷ (24378 ∷ 28872 ∷ 21334 ∷ 20986 ∷ [])
    ∷ (24378 ∷ 28872 ∷ 22686 ∷ 25345 ∷ [])
    ∷ (24378 ∷ 28872 ∷ 20943 ∷ 25345 ∷ [])
    ∷ (24378 ∷ 28872 ∷ 25512 ∷ 33616 ∷ [])
    ∷ (30446 ∷ 26631 ∷ 20215 ∷ [])
    ∷ (24314 ∷ 35758 ∷ 20080 ∷ 20837 ∷ [])
    ∷ (24314 ∷ 35758 ∷ 21334 ∷ 20986 ∷ [])
    ∷ (24314 ∷ 35758 ∷ 24314 ∷ 20179 ∷ [])
    ∷ (24314 ∷ 35758 ∷ 28165 ∷ 20179 ∷ [])
    ∷ (24314 ∷ 35758 ∷ 21152 ∷ 20179 ∷ [])
    ∷ (24314 ∷ 35758 ∷ 20943 ∷ 20179 ∷ [])
    ∷ (20080 ∷ 20837 ∷ 35780 ∷ 32423 ∷ [])
    ∷ (21334 ∷ 20986 ∷ 35780 ∷ 32423 ∷ [])
    ∷ (24517 ∷ 28072 ∷ [])
    ∷ (24517 ∷ 36300 ∷ [])
    ∷ (31283 ∷ 36186 ∷ [])
    ∷ (20445 ∷ 26412 ∷ 25910 ∷ 30410 ∷ [])
    ∷ (115 ∷ 116 ∷ 114 ∷ 111 ∷ 110 ∷ 103 ∷ 32 ∷ 98 ∷ 117 ∷ 121 ∷ [])
    ∷ (115 ∷ 116 ∷ 114 ∷ 111 ∷ 110 ∷ 103 ∷ 32 ∷ 115 ∷ 101 ∷ 108 ∷ 108 ∷ [])
    ∷ (112 ∷ 114 ∷ 105 ∷ 99 ∷ 101 ∷ 32 ∷ 116 ∷ 97 ∷ 114 ∷ 103 ∷ 101 ∷ 116 ∷ [])
    ∷ (98 ∷ 117 ∷ 121 ∷ 32 ∷ 114 ∷ 97 ∷ 116 ∷ 105 ∷ 110 ∷ 103 ∷ [])
    ∷ (115 ∷ 101 ∷ 108 ∷ 108 ∷ 32 ∷ 114 ∷ 97 ∷ 116 ∷ 105 ∷ 110 ∷ 103 ∷ [])
    ∷ []

-- `_POSITIONING.search(text)` finds something.
unfoldable pub positions : Text → Bool
unfolding phrases
positions [] = false
positions (c ∷ rest) = let later = positions rest in any (begins_folded (c ∷ rest)) phrases || later
