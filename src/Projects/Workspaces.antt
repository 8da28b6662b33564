-- ===== src/Projects/Workspaces.antt =====
-- Where the folder of a project lies on the machine, and the titles: `project_dir`,
-- `split_under_roots` and the titles of app/app/domain/workbench/projects.py. `str.lower` is an
-- argument, `lower`.
use investment_backend.Base.{
  ℕ, ◌+◌, Bool, true, false, Option, none, some, List, [], ◌∷◌, ◌++◌, length, take, leb, ltb,
  if◌then◌else◌, is_empty,
}
use investment_backend.Base.Exec.{Result, ok, err}
use investment_backend.Projects.Text.{
  Text, slash, is_slash, backslash, is_space, strip, rstrip, split, join, same_text, starts_with,
  replace, drop, nth, words_of, last_part,
}
use investment_backend.Projects.Paths.{is_separator, is_windows_root}

-- `project_dir`
unfoldable pub project_dir : Text → Text → Text
unfolding is_windows_root
project_dir root relative =
    if is_empty relative
    then root
    else if is_windows_root root
    then rstrip is_separator root ++ (backslash ∷ replace slash backslash relative)
    else rstrip is_slash root ++ (slash ∷ relative)

-- `directory[len(trimmed)]` beyond the end
pub data IndexError : Type 0 where
  out_of_range : IndexError

-- The separators of the machine on which a root lies
abbrev pub separates : Bool → ℕ → Bool
separates true c = is_separator c
separates false c = is_slash c

-- `root.rstrip(…) or root`
unfoldable pub trimmed_root : Text → Text
unfolding is_windows_root
trimmed_root root =
    let trimmed = rstrip (separates (is_windows_root root)) root in
    if is_empty trimmed then root else trimmed

module _ (lower : Text → Text) where
  -- What is compared: on Windows without regard to case
  abbrev pub folded : Bool → Text → Text
  folded true text = lower text
  folded false text = text

  -- The conditions of the loop of `split_under_roots`: the relative path, or `none` for `continue`
  unfoldable pub relative_below : Bool → Text → Text → Result IndexError (Option Text)
  relative_below windows trimmed directory =
      if same_text (folded windows directory) (folded windows trimmed)
      then ok (some [])
      else if starts_with (folded windows directory) (folded windows trimmed)
      then elim (nth (length trimmed) directory) [
        | none ↦ err out_of_range
        | some c ↦
            if separates windows c
            then ok (
                some
                  (strip is_slash (replace backslash slash (drop (length trimmed + 1) directory))))
            else ok none
      ]
      else ok none

  unfoldable pub below_root : Text → Text → Result IndexError (Option Text)
  unfolding is_windows_root trimmed_root relative_below
  below_root directory root = relative_below (is_windows_root root) (trimmed_root root) directory

  -- `best is None or len(trimmed) > len(best[0].rstrip("\\/"))`
  unfoldable pub is_longer : Text → Option (Text × Text) → Bool
  unfolding trimmed_root
  is_longer root none = true
  is_longer root (some best) =
      ltb (length (rstrip is_separator best.0)) (length (trimmed_root root))

  unfoldable pub split_from :
      Option (Text × Text) → Text → List Text → Result IndexError (Option (Text × Text))
  unfolding below_root is_longer
  split_from best directory [] = ok best
  split_from best directory (root ∷ roots) = elim (below_root directory root) [
    | err fault ↦ err fault
    | ok none ↦ split_from best directory roots
    | ok (some relative) ↦
        split_from (if is_longer root best then some (root, relative) else best) directory roots
  ]

  -- `split_under_roots`
  unfoldable pub split_under_roots : Text → List Text → Result IndexError (Option (Text × Text))
  unfolding split_from
  split_under_roots directory roots = split_from none directory roots

abbrev pub max_title_chars : ℕ
max_title_chars = 200

abbrev pub default_title_chars : ℕ
default_title_chars = 30

-- `clean_title`
unfoldable pub clean_title : Option Text → Option Text
clean_title none = none
clean_title (some raw) =
    let text = join 32 (words_of raw) in
    if is_empty text then none else some (take max_title_chars text)

-- `default_title`; the last code point is the ellipsis.
unfoldable pub default_title : Text → Text
unfolding is_space
default_title first_message =
    let text = join 32 (words_of first_message) in
    if leb (length text) default_title_chars
    then text
    else rstrip is_space (take default_title_chars text) ++ (8230 ∷ [])

-- `default_project_title`
unfoldable pub default_project_title : Text → Text → Text
default_project_title relative root =
    let source = if is_empty relative then rstrip is_separator root else relative in
    let name = last_part (split slash (replace backslash slash source)) in
    take max_title_chars (if is_empty name then source else name)
