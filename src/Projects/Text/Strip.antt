-- ===== src/Projects/Text/Strip.antt =====
-- Laws of `strip` and its halves.
use investment_backend.Base.{
  ℕ, ◌+◌, ◌≡◌, refl, sym, ap, ◌∙◌, Bool, true, false, not, ◌&&◌, [], ◌∷◌, ◌++◌, length, is_empty,
  Bool-cases, inl, inr, arith,
}
use investment_backend.Projects.Text.{Text, lstrip, rstrip, starts_with}

module _ (p : ℕ → Bool) where
  -- The first code point is not one to strip.
  abbrev pub starts_clean : Text → Bool
  starts_clean [] = true
  starts_clean (c ∷ _) = not (p c)

  abbrev pub ends_clean : Text → Bool
  ends_clean [] = true
  ends_clean (c ∷ []) = not (p c)
  ends_clean (c ∷ d ∷ rest) = ends_clean (d ∷ rest)

  -- One step of `rstrip`
  rstrip_gone :
      (c : ℕ) (rest : Text) → (p c && is_empty (rstrip p rest)) ≡ true → rstrip p (c ∷ rest) ≡ []
  rstrip_gone c rest h = rw h refl

  rstrip_kept :
      (c : ℕ) (rest : Text)
      → (p c && is_empty (rstrip p rest)) ≡ false
      → rstrip p (c ∷ rest) ≡ c ∷ rstrip p rest
  rstrip_kept c rest h = rw h refl

  pub rstrip-rstrip : (t : Text) → rstrip p (rstrip p t) ≡ rstrip p t
  rstrip-rstrip [] = refl
  rstrip-rstrip (c ∷ rest) = elim (Bool-cases (p c && is_empty (rstrip p rest))) [
    | inl gone ↦ rw (rstrip_gone c rest gone) refl
    | inr kept ↦ rw (rstrip_kept c rest kept) (
        let again : (p c && is_empty (rstrip p (rstrip p rest))) ≡ false =
          ap (λ (t : Text). p c && is_empty t) (rstrip-rstrip rest) ∙ kept in
        rstrip_kept c (rstrip p rest) again ∙ ap (λ (t : Text). c ∷ t) (rstrip-rstrip rest))
  ]

  -- What is kept is a beginning of the text.
  pub rstrip-prefix : (t : Text) → (tail : Text) × (rstrip p t ++ tail ≡ t)
  rstrip-prefix [] = ([], refl)
  rstrip-prefix (c ∷ rest) = elim (Bool-cases (p c && is_empty (rstrip p rest))) [
    | inl gone ↦ (c ∷ rest, ap (λ (t : Text). t ++ (c ∷ rest)) (rstrip_gone c rest gone))
    | inr kept ↦
        let (tail, e) = rstrip-prefix rest in
        (tail, ap (λ (t : Text). t ++ tail) (rstrip_kept c rest kept) ∙ ap (λ (t : Text). c ∷ t) e)
  ]

  pub rstrip_fixed : (t : Text) → ends_clean t ≡ true → rstrip p t ≡ t
  rstrip_fixed [] h = refl
  rstrip_fixed (c ∷ []) h = let kept : (p c && true) ≡ false = ground arith in rstrip_kept c [] kept
  rstrip_fixed (c ∷ d ∷ rest) h =
      let later = rstrip_fixed (d ∷ rest) h in
      let kept : (p c && is_empty (rstrip p (d ∷ rest))) ≡ false =
        ap (λ (t : Text). p c && is_empty t) later ∙ ground arith in
      rstrip_kept c (d ∷ rest) kept ∙ ap (λ (t : Text). c ∷ t) later

  pub fixed_ends_clean : (t : Text) → rstrip p t ≡ t → ends_clean t ≡ true
  fixed_ends_clean [] h = refl
  fixed_ends_clean (c ∷ []) h = elim (Bool-cases (p c)) [
    | inl gone ↦ let no : rstrip p (c ∷ []) ≡ [] = rw gone refl in cc
    | inr kept ↦ rw kept refl
  ]
  fixed_ends_clean (c ∷ d ∷ rest) h = elim (Bool-cases (p c && is_empty (rstrip p (d ∷ rest)))) [
    | inl gone ↦ let no = rstrip_gone c (d ∷ rest) gone in cc
    | inr kept ↦
        let same : c ∷ rstrip p (d ∷ rest) ≡ c ∷ d ∷ rest =
          sym (rstrip_kept c (d ∷ rest) kept) ∙ h in
        fixed_ends_clean (d ∷ rest) cc
  ]

  pub lstrip-starts_clean : (t : Text) → starts_clean (lstrip p t) ≡ true
  lstrip-starts_clean [] = refl
  lstrip-starts_clean (c ∷ rest) = elim (Bool-cases (p c)) [
    | inl gone ↦ rw gone (lstrip-starts_clean rest)
    | inr kept ↦ rw kept (rw kept refl)
  ]

  pub lstrip_fixed : (t : Text) → starts_clean t ≡ true → lstrip p t ≡ t
  lstrip_fixed [] h = refl
  lstrip_fixed (c ∷ rest) h = ground arith

  pub starts_clean_part : (a b : Text) → starts_clean (a ++ b) ≡ true → starts_clean a ≡ true
  starts_clean_part [] b h = refl
  starts_clean_part (c ∷ a) b h = h

pub starts_with-append : (a b x : Text) → starts_with a x ≡ true → starts_with (a ++ b) x ≡ true
starts_with-append a b [] h = ground arith
starts_with-append [] b (y ∷ ys) h = cc
starts_with-append (c ∷ a) b (y ∷ ys) h = ground (arith, starts_with-append a b ys)

pub length-append : (a b : Text) → length (a ++ b) ≡ length a + length b
length-append [] b = omega arith
length-append (c ∷ a) b = let later = length-append a b in omega arith
