-- ===== src/Projects/Text/Split.antt =====
-- Laws of `split` and `join`.
use investment_backend.Base.{
  ℕ, ◌≡◌, refl, sym, ap, ◌∙◌, Bool, true, false, List, [], ◌∷◌, is_empty, Bool-cases, inl, inr,
  ◌==◌, ==_iff,
}
use investment_backend.Projects.Text.{Text, split, push, join, last_part}
use investment_backend.Projects.Text.Strip.{ends_clean}

module _ (sep : ℕ) where
  split_here :
      (c : ℕ) (rest : Text) → (c == sep) ≡ true → split sep (c ∷ rest) ≡ [] ∷ split sep rest
  split_here c rest h = rw h refl

  split_on :
      (c : ℕ) (rest : Text) → (c == sep) ≡ false → split sep (c ∷ rest) ≡ push c (split sep rest)
  split_on c rest h = rw h refl

  -- There is always a first part.
  pub split-cons : (t : Text) → (part : Text) × (parts : List Text) × (split sep t ≡ part ∷ parts)
  split-cons [] = ([], [], refl)
  split-cons (c ∷ rest) = elim (Bool-cases (c == sep)) [
    | inl here ↦ ([], split sep rest, split_here c rest here)
    | inr on ↦
        let (part, parts, e) = split-cons rest in
        (c ∷ part, parts, split_on c rest on ∙ ap (push c) e)
  ]

  join-push : (c : ℕ) (parts : List Text) → join sep (push c parts) ≡ c ∷ join sep parts
  join-push c [] = refl
  join-push c (part ∷ []) = refl
  join-push c (part ∷ next ∷ parts) = refl

  pub join-split : (t : Text) → join sep (split sep t) ≡ t
  join-split [] = refl
  join-split (c ∷ rest) = elim (Bool-cases (c == sep)) [
    | inl here ↦
        let (part, parts, e) = split-cons rest in
        let later : sep ∷ join sep (part ∷ parts) ≡ c ∷ rest =
          ap (λ (ps : List Text). sep ∷ join sep ps) (sym e)
          ∙ ap (λ (t : Text). sep ∷ t) (join-split rest)
          ∙ ap (λ (k : ℕ). k ∷ rest) (sym ((==_iff c sep).0 here)) in
        ap (join sep) (split_here c rest here ∙ ap (λ (ps : List Text). [] ∷ ps) e) ∙ later
    | inr on ↦
        ap (join sep) (split_on c rest on)
        ∙ join-push c (split sep rest)
        ∙ ap (λ (t : Text). c ∷ t) (join-split rest)
  ]

  last-skip :
      (part : Text) (parts : List Text) (t : Text)
      → split sep t ≡ parts
      → last_part (part ∷ parts) ≡ last_part parts
  last-skip part [] t e = let (q, qs, f) = split-cons t in cc
  last-skip part (next ∷ parts) t e = refl

  -- A text ends like its last part, if that is not empty.
  pub last_part-ends_clean :
      (p : ℕ → Bool) (t : Text)
      → is_empty (last_part (split sep t)) ≡ false
      → ends_clean p (last_part (split sep t)) ≡ true
      → ends_clean p t ≡ true
  last_part-ends_clean p [] filled clean = refl
  last_part-ends_clean p (c ∷ []) filled clean = elim (Bool-cases (c == sep)) [
    | inl here ↦ let no : is_empty (last_part (split sep (c ∷ []))) ≡ true = rw here refl in cc
    | inr on ↦
        let same : last_part (split sep (c ∷ [])) ≡ c ∷ [] = rw on refl in
        sym (ap (ends_clean p) same) ∙ clean
  ]
  last_part-ends_clean p (c ∷ d ∷ rest) filled clean = elim (Bool-cases (c == sep)) [
    | inl here ↦
        let same : last_part (split sep (c ∷ d ∷ rest)) ≡ last_part (split sep (d ∷ rest)) =
          ap last_part (split_here c (d ∷ rest) here)
          ∙ last-skip [] (split sep (d ∷ rest)) (d ∷ rest) refl in
        last_part-ends_clean p (d ∷ rest) (sym (ap (λ (x : Text). is_empty x) same) ∙ filled)
          (sym (ap (ends_clean p) same) ∙ clean)
    | inr on ↦
        by_parts (split sep (d ∷ rest)) refl (split_on c (d ∷ rest) on)
          (λ f g. last_part-ends_clean p (d ∷ rest) f g)
  ]
    where
      by_parts :
          (parts : List Text)
          → split sep (d ∷ rest) ≡ parts
          → split sep (c ∷ d ∷ rest) ≡ push c (split sep (d ∷ rest))
          → (is_empty (last_part (split sep (d ∷ rest))) ≡ false
              → ends_clean p (last_part (split sep (d ∷ rest))) ≡ true
              → ends_clean p (d ∷ rest) ≡ true)
          → ends_clean p (d ∷ rest) ≡ true
      by_parts [] e on again = let (q, qs, f) = split-cons (d ∷ rest) in cc
      by_parts (part ∷ []) e on again =
          let whole : part ≡ d ∷ rest = sym (ap (join sep) e) ∙ join-split (d ∷ rest) in
          let same : last_part (split sep (c ∷ d ∷ rest)) ≡ c ∷ d ∷ rest =
            ap last_part (on ∙ ap (push c) e) ∙ ap (λ (x : Text). c ∷ x) whole in
          sym (ap (ends_clean p) same) ∙ clean
      by_parts (part ∷ next ∷ parts) e on again =
          let same : last_part (split sep (c ∷ d ∷ rest)) ≡ last_part (split sep (d ∷ rest)) =
            ap last_part (on ∙ ap (push c) e) ∙ sym (ap last_part e) in
          again (sym (ap (λ (x : Text). is_empty x) same) ∙ filled)
            (sym (ap (ends_clean p) same) ∙ clean)
