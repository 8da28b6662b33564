-- ===== src/Projects/Cleaning.antt =====
-- What `clean_relative_path` of app/app/domain/workbench/projects.py lets through.
use investment_backend.Base.{
  ℕ, ◌≡◌, refl, sym, ap, ◌∙◌, ◌≢◌, true, false, ◌||◌, Option, none, some, List, [], ◌∷◌, ◌++◌,
  length, ltb, any, ◌==◌, ==_iff, is_empty, Bool-cases, ◌⊎◌, inl, inr, arith,
}
use investment_backend.Base.Exec.{ok, err}
use investment_backend.Projects.Text.{
  Text, slash, is_slash, is_space, strip, rstrip, lstrip, split, join, same_text, last_part,
}
use investment_backend.Projects.Text.Strip.{
  starts_clean, ends_clean, rstrip-rstrip, rstrip-prefix, rstrip_fixed, fixed_ends_clean,
  lstrip-starts_clean, lstrip_fixed, starts_clean_part, length-append,
}
use investment_backend.Projects.Text.Split.{join-split, split-cons, last_part-ends_clean}
use investment_backend.Projects.Paths.{
  ProjectPathInvalid, too_long, not_relative, max_path_chars, is_dots, is_forbidden, check_segment,
  check_segments, is_absolute, is_windows_root, segments_of, clean_stripped, clean_relative_path,
}

pub same_text_sound : (a b : Text) → same_text a b ≡ true → a ≡ b
same_text_sound [] [] h = refl
same_text_sound [] (y ∷ b) h = cc
same_text_sound (x ∷ a) [] h = cc
same_text_sound (x ∷ a) (y ∷ b) h =
    let heads : (x == y) ≡ true = ground arith in
    let tails : same_text a b ≡ true = ground arith in
    ap (λ (k : ℕ). k ∷ a) ((==_iff x y).0 heads)
    ∙ ap (λ (t : Text). y ∷ t) (same_text_sound a b tails)

is_absolute-append : (a b : Text) → is_absolute a ≡ true → is_absolute (a ++ b) ≡ true
unfolding is_absolute is_windows_root
is_absolute-append [] b h = cc
is_absolute-append (x ∷ []) b h = ground arith
is_absolute-append (x ∷ y ∷ []) b h = ground arith
is_absolute-append (x ∷ y ∷ z ∷ a) b h = h

-- What the checks of one segment say
pub segment-parts :
    (segment : Text)
    → check_segment segment ≡ none
    → (is_dots segment ≡ false)
      × (same_text segment (strip is_space segment) ≡ true)
      × (any is_forbidden segment ≡ false)
unfolding check_segment
segment-parts segment h = (ground arith, ground arith, ground arith)

pub check_segments-head :
    (part : Text) (parts : List Text)
    → check_segments (part ∷ parts) ≡ none
    → (check_segment part ≡ none) × (check_segments parts ≡ none)
unfolding check_segments
check_segments-head part parts h = by_first (check_segment part) refl
  where
    by_first :
        (o : Option ProjectPathInvalid)
        → check_segment part ≡ o
        → (check_segment part ≡ none) × (check_segments parts ≡ none)
    by_first none e = (
      e,
      sym (
            let r : check_segments (part ∷ parts) ≡ check_segments parts =
              rw (e, check_segments) refl in
            r)
          ∙ h,
    )
    by_first (some fault) e =
        let r : check_segments (part ∷ parts) ≡ some fault = rw (e, check_segments) refl in cc

check_segments-last :
    (part : Text) (parts : List Text)
    → check_segments (part ∷ parts) ≡ none
    → check_segment (last_part (part ∷ parts)) ≡ none
check_segments-last part [] h = (check_segments-head part [] h).0
check_segments-last part (next ∷ parts) h =
    check_segments-last next parts (check_segments-head part (next ∷ parts) h).1

-- A path that was not empty
pub record Kept (text r : Text) : Type 0 where
  pub whole : r ≡ rstrip is_slash text
  pub short : ltb max_path_chars (length text) ≡ false
  pub relative : is_absolute text ≡ false
  pub checked : check_segments (split slash r) ≡ none

pub clean_stripped-Kept : (text r : Text) → clean_stripped text ≡ ok r → (r ≡ []) ⊎ Kept text r
unfolding clean_stripped
clean_stripped-Kept text r h = elim (Bool-cases (is_empty text || same_text text (46 ∷ []))) [
  | inl trivial ↦ let got : clean_stripped text ≡ ok [] = rw trivial refl in inl cc
  | inr real ↦ elim (Bool-cases (ltb max_path_chars (length text))) [
    | inl long ↦ let got : clean_stripped text ≡ err too_long = rw real (rw long refl) in cc
    | inr short ↦ elim (Bool-cases (is_absolute text)) [
      | inl abs ↦
          let got : clean_stripped text ≡ err not_relative = rw real (rw short (rw abs refl)) in cc
      | inr relative ↦ by_check real short relative (check_segments (segments_of text)) refl
    ]
  ]
]
  where
    by_check :
        (is_empty text || same_text text (46 ∷ [])) ≡ false
        → ltb max_path_chars (length text) ≡ false
        → is_absolute text ≡ false
        → (o : Option ProjectPathInvalid) → check_segments (segments_of text) ≡ o
        → (r ≡ []) ⊎ Kept text r
    by_check real short relative none e =
        let got : clean_stripped text ≡ ok (join slash (segments_of text)) =
          rw real (rw short (rw relative (rw e refl))) in
        let parts : r ≡ join slash (segments_of text) = cc in
        let whole = parts ∙ join-split slash (rstrip is_slash text) in
        inr (record {
          whole = whole;
          short = short;
          relative = relative;
          checked = ap (λ (t : Text). check_segments (split slash t)) whole ∙ e;
        })
    by_check real short relative (some fault) e =
        let got : clean_stripped text ≡ err fault = rw real (rw short (rw relative (rw e refl))) in
        cc

module _ (text r : Text) (k : Kept text r) where
  last_checked : check_segment (last_part (split slash r)) ≡ none
  last_checked =
      let (part, parts, e) = split-cons slash r in
      ap (λ (ps : List Text). check_segment (last_part ps)) e
      ∙ check_segments-last part parts (sym (ap check_segments e) ∙ k.checked)

  not_trivial : (is_empty r || same_text r (46 ∷ [])) ≡ false
  unfolding check_segments check_segment
  not_trivial = elim (Bool-cases (is_empty r || same_text r (46 ∷ []))) [
    | inr real ↦ real
    | inl trivial ↦ absurd (by_text r trivial k.checked)
  ]
    where
      by_text :
          (t : Text)
          → (is_empty t || same_text t (46 ∷ [])) ≡ true
          → check_segments (split slash t) ≢ none
      by_text [] h e = cc
      by_text (c ∷ t) h e =
          let dot : check_segments (split slash (46 ∷ [])) ≡ none =
            sym (
              ap (λ (x : Text). check_segments (split slash x))
                (same_text_sound (c ∷ t) (46 ∷ []) h))
            ∙ e in
          cc

  ends : ends_clean is_space r ≡ true
  ends =
      let s = last_part (split slash r) in
      let (not_dots, same, _) = segment-parts s last_checked in
      let fixed = same_text_sound s (strip is_space s) same in
      let still : rstrip is_space s ≡ s =
        ap (rstrip is_space) fixed ∙ rstrip-rstrip is_space (lstrip is_space s) ∙ sym fixed in
      last_part-ends_clean slash is_space r (ground arith) (fixed_ends_clean is_space s still)

  short_still : ltb max_path_chars (length r) ≡ false
  short_still =
      let (tail, e) = rstrip-prefix is_slash text in
      let lengths =
        sym (length-append (rstrip is_slash text) tail) ∙ ap (λ (t : Text). length t) e in
      let sizes = ap (λ (t : Text). length t) k.whole in let short = k.short in ground arith

  relative_still : is_absolute r ≡ false
  relative_still = elim (Bool-cases (is_absolute r)) [
    | inr relative ↦ relative
    | inl abs ↦
        let (tail, e) = rstrip-prefix is_slash text in
        let back : is_absolute text ≡ true =
          sym (ap is_absolute e)
          ∙ is_absolute-append (rstrip is_slash text) tail (sym (ap is_absolute k.whole) ∙ abs) in
        let relative = k.relative in cc
  ]

  segments_still : segments_of r ≡ split slash r
  segments_still =
      ap (split slash) (ap (rstrip is_slash) k.whole ∙ rstrip-rstrip is_slash text ∙ sym k.whole)

  clean_again : clean_stripped r ≡ ok r
  unfolding clean_stripped
  clean_again = rw not_trivial (
      rw short_still (
        rw relative_still (
          rw segments_still (
            rw k.checked
              (ap (λ (t : Text). ok t) (ap (join slash) segments_still ∙ join-split slash r))))))

Kept-strip : (raw r : Text) → Kept (strip is_space raw) r → strip is_space r ≡ r
Kept-strip raw r k =
    let (tail, e) = rstrip-prefix is_slash (strip is_space raw) in
    let (more, f) = rstrip-prefix is_space (lstrip is_space raw) in
    let start : starts_clean is_space (strip is_space raw) ≡ true =
      starts_clean_part is_space (strip is_space raw) more
        (ap (starts_clean is_space) f ∙ lstrip-starts_clean is_space raw) in
    let begin : starts_clean is_space r ≡ true =
      ap (starts_clean is_space) k.whole
      ∙ starts_clean_part is_space (rstrip is_slash (strip is_space raw)) tail
          (ap (starts_clean is_space) e ∙ start) in
    ap (rstrip is_space) (lstrip_fixed is_space r begin)
    ∙ rstrip_fixed is_space r (ends (strip is_space raw) r k)

empty_again : clean_relative_path (some []) ≡ ok []
unfolding clean_relative_path clean_stripped
empty_again = refl

-- Cleaning twice is cleaning once: a path that `clean_relative_path` returns is accepted again and
-- comes back as it is.
pub clean_relative_path_again :
    (raw r : Text) → clean_relative_path (some raw) ≡ ok r → clean_relative_path (some r) ≡ ok r
unfolding clean_relative_path
clean_relative_path_again raw r h = elim (clean_stripped-Kept (strip is_space raw) r h) [
  | inl nothing ↦
      ap (λ (t : Text). clean_relative_path (some t)) nothing
      ∙ empty_again
      ∙ ap (λ (t : Text). ok t) (sym nothing)
  | inr k ↦ ap clean_stripped (Kept-strip raw r k) ∙ clean_again (strip is_space raw) r k
]
