-- ===== src/Projects/Paths.antt =====
-- The folder of a project inside its workspace: `clean_relative_path` of
-- app/app/domain/workbench/projects.py.
use investment_backend.Base.{
  ℕ, ◌+◌, Bool, false, not, ◌&&◌, ◌||◌, Option, none, some, List, [], ◌∷◌, length, any, leb, ltb,
  ◌==◌, if◌then◌else◌, is_empty,
}
use investment_backend.Base.Exec.{Result, ok, err}
use investment_backend.Projects.Text.{
  Text, slash, is_slash, backslash, between, is_space, strip, rstrip, split, join, same_text,
  starts_with,
}

-- The messages of `ProjectPathInvalid`
pub data ProjectPathInvalid : Type 0 where
  too_long : ProjectPathInvalid
  not_relative : ProjectPathInvalid
  empty_or_dots : ProjectPathInvalid
  long_segment : ProjectPathInvalid
  forbidden_character : ProjectPathInvalid
  padded : ProjectPathInvalid
  reserved_name : ProjectPathInvalid

abbrev pub max_path_chars : ℕ
max_path_chars = 400

abbrev pub max_segment_chars : ℕ
max_segment_chars = 120

abbrev pub is_letter : ℕ → Bool
is_letter c = between 65 90 c || between 97 122 c

abbrev pub is_separator : ℕ → Bool
is_separator c = c == backslash || c == slash

-- `_WINDOWS_ROOT`: a letter, a colon and a separator, or two backslashes
abbrev pub is_drive : Text → Bool
is_drive (a ∷ b ∷ c ∷ _) = is_letter a && b == 58 && is_separator c
is_drive _ = false

-- `is_windows_root`
unfoldable pub is_windows_root : Text → Bool
is_windows_root text = is_drive text || starts_with text (backslash ∷ backslash ∷ [])

-- `_FORBIDDEN_IN_SEGMENT`
unfoldable pub is_forbidden : ℕ → Bool
is_forbidden c =
    c == 60
    || c == 62
    || c == 58
    || c == 34
    || c == 124
    || c == 63
    || c == 42
    || c == backslash
    || leb c 31
    || c == 127

abbrev pub lower_ascii : ℕ → ℕ
lower_ascii c = if between 65 90 c then c + 32 else c

abbrev pub lower_letters : Text → Text
lower_letters [] = []
lower_letters (c ∷ rest) = lower_ascii c ∷ lower_letters rest

-- What stands before the first dot
abbrev pub stem : Text → Text
stem [] = []
stem (c ∷ rest) = if c == 46 then [] else c ∷ stem rest

-- `con|prn|aux|nul|com[1-9]|lpt[1-9]`
unfoldable pub is_device : Text → Bool
is_device (a ∷ b ∷ c ∷ []) =
    same_text (a ∷ b ∷ c ∷ []) (99 ∷ 111 ∷ 110 ∷ [])
    || same_text (a ∷ b ∷ c ∷ []) (112 ∷ 114 ∷ 110 ∷ [])
    || same_text (a ∷ b ∷ c ∷ []) (97 ∷ 117 ∷ 120 ∷ [])
    || same_text (a ∷ b ∷ c ∷ []) (110 ∷ 117 ∷ 108 ∷ [])
is_device (a ∷ b ∷ c ∷ d ∷ []) =
    between 49 57 d
    && (same_text (a ∷ b ∷ c ∷ []) (99 ∷ 111 ∷ 109 ∷ [])
        || same_text (a ∷ b ∷ c ∷ []) (108 ∷ 112 ∷ 116 ∷ []))
is_device _ = false

-- `_WINDOWS_RESERVED`, on a segment without control characters
unfoldable pub is_reserved : Text → Bool
unfolding is_device
is_reserved segment = is_device (stem (lower_letters segment))

abbrev pub ends_with_dot : Text → Bool
ends_with_dot [] = false
ends_with_dot (c ∷ []) = c == 46
ends_with_dot (c ∷ d ∷ rest) = ends_with_dot (d ∷ rest)

abbrev pub is_dots : Text → Bool
is_dots segment =
    is_empty segment || same_text segment (46 ∷ []) || same_text segment (46 ∷ 46 ∷ [])

-- The body of the loop over the segments
unfoldable pub check_segment : Text → Option ProjectPathInvalid
unfolding is_space is_forbidden is_reserved
check_segment segment =
    if is_dots segment
    then some empty_or_dots
    else if ltb max_segment_chars (length segment)
    then some long_segment
    else if any is_forbidden segment
    then some forbidden_character
    else if not (same_text segment (strip is_space segment)) || ends_with_dot segment
    then some padded
    else if is_reserved segment
    then some reserved_name
    else none

unfoldable pub check_segments : List Text → Option ProjectPathInvalid
unfolding check_segment
check_segments [] = none
check_segments (segment ∷ segments) =
    let rest = check_segments segments in
    elim (check_segment segment) [ none ↦ rest | some fault ↦ some fault ]

-- The text does not begin like a path of its own.
unfoldable pub is_absolute : Text → Bool
unfolding is_windows_root
is_absolute text =
    starts_with text (slash ∷ [])
    || starts_with text (backslash ∷ [])
    || starts_with text (126 ∷ [])
    || is_windows_root text

-- `text.rstrip("/").split("/")`
abbrev pub segments_of : Text → List Text
segments_of text = split slash (rstrip is_slash text)

-- `clean_relative_path`, after `text = raw.strip()`
unfoldable pub clean_stripped : Text → Result ProjectPathInvalid Text
unfolding is_absolute check_segments
clean_stripped text =
    if is_empty text || same_text text (46 ∷ [])
    then ok []
    else if ltb max_path_chars (length text)
    then err too_long
    else if is_absolute text
    then err not_relative
    else elim (check_segments (segments_of text)) [
      | none ↦ ok (join slash (segments_of text))
      | some fault ↦ err fault
    ]

-- `clean_relative_path`
unfoldable pub clean_relative_path : Option Text → Result ProjectPathInvalid Text
unfolding clean_stripped is_space
clean_relative_path none = ok []
clean_relative_path (some raw) = clean_stripped (strip is_space raw)
