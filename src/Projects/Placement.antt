-- ===== src/Projects/Placement.antt =====
-- Where the folder of a project lies, and which workspace a folder belongs to
-- (app/app/domain/workbench/projects.py).
use investment_backend.Base.{
  ℕ, suc, ◌+◌, ◌≡◌, refl, sym, ap, subst, ◌∙◌, ◌≢◌, Bool, true, false, ◌||◌, none, some, List, [],
  ◌∷◌, ◌++◌, length, any, ◌==◌, ==_iff, if◌then◌else◌, is_empty, Bool-cases, inl, inr, arith,
}
use investment_backend.Base.Exec.{ok}
use investment_backend.Projects.Text.{
  Text, slash, is_slash, backslash, is_space, strip, rstrip, split, push, same_text, starts_with,
  replace, drop, nth,
}
use investment_backend.Projects.Text.Strip.{
  starts_clean, rstrip-rstrip, rstrip-prefix, starts_clean_part, lstrip_fixed,
}
use investment_backend.Projects.Paths.{
  is_forbidden, is_windows_root, is_absolute, check_segment, check_segments, clean_relative_path,
}
use investment_backend.Projects.Workspaces.{
  project_dir, separates, folded, trimmed_root, relative_below, below_root, is_longer, split_from,
  split_under_roots,
}
use investment_backend.Projects.Cleaning.{
  Kept, clean_stripped-Kept, segment-parts, check_segments-head,
}

abbrev drop_last : List Text → List Text
drop_last [] = []
drop_last (part ∷ []) = []
drop_last (part ∷ next ∷ parts) = part ∷ drop_last (next ∷ parts)

-- Where a system ends up that follows the names of a path from a folder: `..` goes up, an empty name
-- and `.` stay.
abbrev pub walk : List Text → List Text → List Text
walk folder [] = folder
walk folder (name ∷ names) =
    if is_empty name || same_text name (46 ∷ [])
    then walk folder names
    else if same_text name (46 ∷ 46 ∷ [])
    then walk (drop_last folder) names
    else walk (folder ++ (name ∷ [])) names

append_assoc : (a b c : List Text) → (a ++ b) ++ c ≡ a ++ (b ++ c)
append_assoc [] b c = refl
append_assoc (x ∷ a) b c = ap (λ (l : List Text). x ∷ l) (append_assoc a b c)

append_nil : (a : List Text) → a ++ [] ≡ a
append_nil [] = refl
append_nil (x ∷ a) = ap (λ (l : List Text). x ∷ l) (append_nil a)

walk_down :
    (names : List Text) (folder : List Text)
    → check_segments names ≡ none
    → walk folder names ≡ folder ++ names
walk_down [] folder h = sym (append_nil folder)
walk_down (name ∷ names) folder h =
    let (first, rest) = check_segments-head name names h in
    let (not_dots, _, _) = segment-parts name first in
    let stays : (is_empty name || same_text name (46 ∷ [])) ≡ false = ground arith in
    let up : same_text name (46 ∷ 46 ∷ []) ≡ false = ground arith in
    rw stays
      (rw up (walk_down names (folder ++ (name ∷ [])) rest ∙ append_assoc folder (name ∷ []) names))

-- A path that `clean_relative_path` returns never leads out of the workspace: whoever follows it from
-- a folder ends up in that folder or below it.
pub clean_relative_path_stays :
    (raw r : Text) (folder : List Text)
    → clean_relative_path (some raw) ≡ ok r
    → (below : List Text) × (walk folder (split slash r) ≡ folder ++ below)
unfolding clean_relative_path
clean_relative_path_stays raw r folder h = elim (clean_stripped-Kept (strip is_space raw) r h) [
  | inl nothing ↦
      ([], ap (λ (t : Text). walk folder (split slash t)) nothing ∙ sym (append_nil folder))
  | inr k ↦ (split slash r, walk_down (split slash r) folder k.checked)
]

==_same : (c : ℕ) → (c == c) ≡ true
==_same c = (==_iff c c).1 refl

-- Finding the parts of a text that was put together
longer_differs : (t : Text) (c : ℕ) (x : Text) → same_text (t ++ (c ∷ x)) t ≡ false
longer_differs [] c x = refl
longer_differs (a ∷ t) c x = let later = longer_differs t c x in ground arith

starts_with_part : (t x : Text) → starts_with (t ++ x) t ≡ true
starts_with_part [] x = ground arith
starts_with_part (a ∷ t) x =
    let later = starts_with_part t x in let same = ==_same a in ground arith

nth_after : (t : Text) (c : ℕ) (x : Text) → nth (length t) (t ++ (c ∷ x)) ≡ some c
nth_after [] c x = refl
nth_after (a ∷ t) c x = nth_after t c x

drop_after : (t : Text) (c : ℕ) (x : Text) → drop (length t + 1) (t ++ (c ∷ x)) ≡ x
drop_after [] c x = refl
drop_after (a ∷ t) c x =
    let e : suc (length t) + 1 ≡ suc (length t + 1) = omega arith in rw e (drop_after t c x)

-- No segment has a backslash, so the path has none.
abbrev AreFree : List Text → Type 0
AreFree [] = Unit {0}
AreFree (part ∷ parts) = (any is_forbidden part ≡ false) × AreFree parts

checked-AreFree : (parts : List Text) → check_segments parts ≡ none → AreFree parts
checked-AreFree [] h = tt
checked-AreFree (part ∷ parts) h =
    let (first, rest) = check_segments-head part parts h in
    let (_, _, free) = segment-parts part first in (free, checked-AreFree parts rest)

push-AreFree :
    (c : ℕ) (parts : List Text) → AreFree (push c parts) → (is_forbidden c ≡ false) × AreFree parts
push-AreFree c [] h = (ground (arith, h.0), tt)
push-AreFree c (part ∷ parts) h = let first = h.0 in (ground arith, (ground arith, h.1))

forbidden-backslash : (c : ℕ) → is_forbidden c ≡ false → (c == backslash) ≡ false
unfolding is_forbidden
forbidden-backslash c h = ground arith

abbrev HasNone : ℕ → Text → Type 0
HasNone b [] = Unit {0}
HasNone b (c ∷ rest) = ((c == b) ≡ false) × HasNone b rest

free-HasNone : (t : Text) → AreFree (split slash t) → HasNone backslash t
free-HasNone [] h = tt
free-HasNone (c ∷ rest) h = elim (Bool-cases (c == slash)) [
  | inl here ↦
      let parts =
        subst AreFree (let e : split slash (c ∷ rest) ≡ [] ∷ split slash rest = rw here refl in e)
          h in
      (ground arith, free-HasNone rest parts.1)
  | inr on ↦
      let parts =
        subst AreFree (let e : split slash (c ∷ rest) ≡ push c (split slash rest) = rw on refl in e)
          h in
      let (first, later) = push-AreFree c (split slash rest) parts in
      (forbidden-backslash c first, free-HasNone rest later)
]

replace_none : (b d : ℕ) (t : Text) → HasNone b t → replace b d t ≡ t
replace_none b d [] h = refl
replace_none b d (c ∷ rest) h = rw h.0 (ap (λ (t : Text). c ∷ t) (replace_none b d rest h.1))

replace_back :
    (t : Text) → HasNone backslash t → replace backslash slash (replace slash backslash t) ≡ t
replace_back [] h = refl
replace_back (c ∷ rest) h = elim (Bool-cases (c == slash)) [
  | inl here ↦ rw here (
      ap (λ (k : ℕ). k ∷ replace backslash slash (replace slash backslash rest))
        (sym ((==_iff c slash).0 here))
      ∙ ap (λ (t : Text). c ∷ t) (replace_back rest h.1))
  | inr on ↦ rw on (rw h.0 (ap (λ (t : Text). c ∷ t) (replace_back rest h.1)))
]

absolute-starts_clean : (t : Text) → is_absolute t ≡ false → starts_clean is_slash t ≡ true
unfolding is_absolute
absolute-starts_clean [] h = refl
absolute-starts_clean (c ∷ t) h = ground arith

-- What the documentation of `str.lower` says of a backslash: it stays, and the texts on either side of
-- it are lowered one by one.
pub record LowersAround (lower : Text → Text) : Type 0 where
  pub around : (a b : Text) → lower (a ++ (backslash ∷ b)) ≡ lower a ++ (backslash ∷ lower b)

module _ (lower : Text → Text) (lowers : LowersAround lower) (root text r : Text) (k : Kept text r)
    (filled : is_empty (rstrip (separates (is_windows_root root)) root) ≡ false) where
  abbrev trimmed : Bool → Text
  trimmed windows = rstrip (separates windows) root

  abbrev tail : Bool → Text
  tail true = backslash ∷ replace slash backslash r
  tail false = slash ∷ r

  no_backslash : HasNone backslash r
  no_backslash = free-HasNone r (checked-AreFree (split slash r) k.checked)

  not_empty : is_empty r ≡ false
  unfolding check_segments check_segment
  not_empty = elim (Bool-cases (is_empty r)) [
    | inr real ↦ real
    | inl nothing ↦ absurd (by_text r nothing k.checked)
  ]
    where
      by_text : (t : Text) → is_empty t ≡ true → check_segments (split slash t) ≢ none
      by_text [] h e = cc
      by_text (c ∷ t) h e = cc

  placed :
      (windows : Bool)
      → is_windows_root root ≡ windows
      → project_dir root r ≡ trimmed windows ++ tail windows
  unfolding project_dir
  placed true flag = rw not_empty (rw flag refl)
  placed false flag = rw not_empty (rw flag refl)

  trimmed_at :
      (windows : Bool) → is_windows_root root ≡ windows → trimmed_root root ≡ trimmed windows
  unfolding trimmed_root
  trimmed_at windows flag =
      let real : is_empty (trimmed windows) ≡ false =
        ap (λ (w : Bool). is_empty (trimmed w)) (sym flag) ∙ filled in
      rw flag (rw real refl)

  differs :
      (windows : Bool)
      → same_text
          (folded lower windows (trimmed windows ++ tail windows))
          (folded lower windows (trimmed windows))
        ≡ false
  differs true =
      ap (λ (t : Text). same_text t (lower (trimmed true)))
        (lowers.around (trimmed true) (replace slash backslash r))
      ∙ longer_differs (lower (trimmed true)) backslash (lower (replace slash backslash r))
  differs false = longer_differs (trimmed false) slash r

  begins :
      (windows : Bool)
      → starts_with
          (folded lower windows (trimmed windows ++ tail windows))
          (folded lower windows (trimmed windows))
        ≡ true
  begins true =
      ap (λ (t : Text). starts_with t (lower (trimmed true)))
        (lowers.around (trimmed true) (replace slash backslash r))
      ∙ starts_with_part (lower (trimmed true)) (backslash ∷ lower (replace slash backslash r))
  begins false = starts_with_part (trimmed false) (tail false)

  clean_start : starts_clean is_slash r ≡ true
  clean_start =
      let (more, e) = rstrip-prefix is_slash text in
      ap (starts_clean is_slash) k.whole
      ∙ starts_clean_part is_slash (rstrip is_slash text) more
          (ap (starts_clean is_slash) e ∙ absolute-starts_clean text k.relative)

  strip_still : strip is_slash r ≡ r
  strip_still =
      ap (rstrip is_slash) (lstrip_fixed is_slash r clean_start)
      ∙ ap (rstrip is_slash) k.whole
      ∙ rstrip-rstrip is_slash text
      ∙ sym k.whole

  relative_at :
      (windows : Bool)
      → strip is_slash (
          replace backslash slash
            (drop (length (trimmed windows) + 1) (trimmed windows ++ tail windows)))
        ≡ r
  relative_at true =
      ap (λ (t : Text). strip is_slash (replace backslash slash t))
        (drop_after (trimmed true) backslash (replace slash backslash r))
      ∙ ap (strip is_slash) (replace_back r no_backslash)
      ∙ strip_still
  relative_at false =
      ap (λ (t : Text). strip is_slash (replace backslash slash t))
        (drop_after (trimmed false) slash r)
      ∙ ap (strip is_slash) (replace_none backslash slash r no_backslash)
      ∙ strip_still

  relative_project :
      (windows : Bool)
      → relative_below lower windows (trimmed windows) (trimmed windows ++ tail windows)
        ≡ ok (some r)
  unfolding relative_below
  relative_project true = rw (differs true) (
      rw (begins true) (
        rw (nth_after (trimmed true) backslash (replace slash backslash r))
          (ap (λ (t : Text). ok (some t)) (relative_at true))))
  relative_project false = rw (differs false) (
      rw (begins false) (
        rw (nth_after (trimmed false) slash r)
          (ap (λ (t : Text). ok (some t)) (relative_at false))))

  below_project : below_root lower (project_dir root r) root ≡ ok (some r)
  unfolding below_root
  below_project =
      ap (relative_below lower (is_windows_root root) (trimmed_root root))
        (placed (is_windows_root root) refl)
      ∙ ap
          (λ (t : Text).
            relative_below lower (is_windows_root root) t
              (trimmed (is_windows_root root) ++ tail (is_windows_root root)))
          (trimmed_at (is_windows_root root) refl)
      ∙ relative_project (is_windows_root root)

  pub found_again : split_under_roots lower (project_dir root r) (root ∷ []) ≡ ok (some (root, r))
  unfolding split_under_roots split_from is_longer
  found_again = rw (below_project, split_from) refl

-- Where `project_dir` puts a project, `split_under_roots` finds the workspace and the relative path
-- again, on Windows and elsewhere: for every path that `clean_relative_path` returns, other than the
-- workspace itself, and every root that is more than separators.
pub split_under_roots-project_dir :
    (lower : Text → Text) (root raw r : Text)
    → LowersAround lower
    → is_empty (rstrip (separates (is_windows_root root)) root) ≡ false
    → clean_relative_path (some raw) ≡ ok r
    → r ≢ []
    → split_under_roots lower (project_dir root r) (root ∷ []) ≡ ok (some (root, r))
unfolding clean_relative_path
split_under_roots-project_dir lower root raw r lowers filled h real =
    elim (clean_stripped-Kept (strip is_space raw) r h) [
      | inl nothing ↦ absurd (real nothing)
      | inr k ↦ found_again lower lowers root (strip is_space raw) r k filled
    ]
