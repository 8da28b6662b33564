-- ===== src/Ledger/Money.antt =====
-- What is left of a budget when an attempt ends (`attempt_transition` of
-- app/app/application/workbench/ledger.py).
use mathlib.Core.Path.{◌∙◌, ap}
use investment_backend.Base.{
  ℕ, zero, suc, min, ◌≤◌, ◌-◌, ◌≡◌, refl, true, inl, inr, Bool-cases, arith, ◌==◌,
}
use investment_backend.Base.Int.{ℤ, pos, ◌-ℤ◌, ◌+ℤ◌, min_ℤ, max_ℤ, int_laws, ltb_ℤ}
use investment_backend.Store.{Budget}
use investment_backend.Ledger.Attempts.{settled, after_consume, released}

min_pos : (a b : ℕ) → min_ℤ (pos a) (pos b) ≡ pos (min a b)
unfolding min_ℤ
min_pos a b = ground arith

minus_pos : (a b : ℕ) → b ≤ a → pos a -ℤ pos b ≡ pos (a - b)
unfolding ◌-ℤ◌
minus_pos a b h = ground arith

cut_pos : (a b : ℕ) → max_ℤ (pos 0) (pos a -ℤ pos b) ≡ pos (a - b)
unfolding ◌-ℤ◌ max_ℤ
cut_pos a b = ground arith

-- The reserve after what was consumed is booked.
after_reserved :
    (allocated reserved consumed : ℕ) (b : Budget)
    → b.reserved ≡ pos reserved
    → reserved ≤ allocated
    → (after_consume (pos allocated) (pos consumed) b).reserved ≡ pos (reserved - consumed)
unfolding after_consume
after_reserved a r c b h le = elim (Bool-cases (c == 0)) [
  | inl idle ↦ rw idle (h ∙ ap pos (ground arith))
  | inr busy ↦ rw busy (rw h (rw (min_pos c a) (cut_pos r (min c a) ∙ ap pos (omega arith))))
]

after_used :
    (allocated consumed : ℕ) (b : Budget)
    → (after_consume (pos allocated) (pos consumed) b).used ≡ b.used +ℤ pos consumed
unfolding after_consume
after_used a c b = elim (Bool-cases (c == 0)) [
  | inl idle ↦ rw idle (grind int_laws)
  | inr busy ↦ rw busy refl
]

none_released :
    (allocated consumed : ℤ) (b : Budget)
    → b.reserved ≡ pos 0
    → b.reserved -ℤ released allocated consumed b ≡ pos 0
unfolding released ◌-ℤ◌
none_released a c b h = rw h (elim (Bool-cases (ltb_ℤ (pos 0) (a -ℤ c))) [
  | inl more ↦ rw more refl
  | inr no_more ↦ rw no_more refl
])

some_released :
    (allocated consumed left : ℕ) (b : Budget)
    → b.reserved ≡ pos (suc left)
    → suc left ≤ allocated - consumed
    → b.reserved -ℤ released (pos allocated) (pos consumed) b ≡ pos 0
unfolding released
some_released a c n b h le =
    rw h (rw (minus_pos a c (omega arith)) (rw (min_pos (a - c) (suc n)) (grind int_laws)))

-- What is given back is what is still set aside.
released_all :
    (allocated consumed left : ℕ) (b : Budget)
    → b.reserved ≡ pos left
    → left ≤ allocated - consumed
    → b.reserved -ℤ released (pos allocated) (pos consumed) b ≡ pos 0
released_all a c zero b h le = none_released (pos a) (pos c) b h
released_all a c (suc n) b h le = some_released a c n b h le

-- When an attempt ends, nothing stays set aside for it and the account grows by what it used: if
-- what is reserved is at most what was allocated to the attempt, then after the last report the
-- reserve is zero and `used` has grown by what was reported.
pub settled_closes :
    (allocated reserved consumed : ℕ) (b : Budget)
    → b.reserved ≡ pos reserved
    → reserved ≤ allocated
    → ((settled true (pos allocated) (pos consumed) b).reserved ≡ pos 0)
      × ((settled true (pos allocated) (pos consumed) b).used ≡ b.used +ℤ pos consumed)
unfolding settled
settled_closes a r c b h le = (
  released_all a c (r - c) (after_consume (pos a) (pos c) b) (after_reserved a r c b h le)
      (omega arith),
  after_used a c b,
)
