-- ===== src/Base/Exec.antt =====
-- Methods that change a store and may raise. What was written before a raise stays written until
-- somebody rolls it back, so the store comes back beside the error too.
pub mod Respects
use mathlib.Core.Bool.{Bool, true, false}
use mathlib.Core.Option.{Option, none, some}

pub data Result (E A : Type 0) : Type 0 where
  ok : A → Result E A
  err : E → Result E A

abbrev pub Exec : Type 0 → Type 0 → Type 0 → Type 0
Exec S E A = S → Result E A × S

abbrev pub resume : {S E A B : Type 0} → Result E A → S → (A → Exec S E B) → Result E B × S
resume (ok a) s f = f a s
resume (err e) s f = (err e, s)

abbrev pub undo : {S E A : Type 0} → Result E A → S → S → Result E A × S
undo (ok a) before after = (ok a, after)
undo (err e) before after = (err e, before)

module _ {S E A : Type 0} where
  pub pure : A → Exec S E A
  pure a s = (ok a, s)

  pub raise : E → Exec S E A
  raise e s = (err e, s)

  pub gets : (S → A) → Exec S E A
  gets f s = (ok (f s), s)

  pub or_raise : Option A → E → Exec S E A
  or_raise none e s = (err e, s)
  or_raise (some a) e s = (ok a, s)

  pub lift : Result E A → Exec S E A
  lift r s = (r, s)

module _ {S E : Type 0} where
  pub modify : (S → S) → Exec S E (Unit {0})
  modify f s = (ok tt, f s)

  pub raise_if : Bool → E → Exec S E (Unit {0})
  raise_if true e s = (err e, s)
  raise_if false e s = (ok tt, s)

  -- An `if` with no `else`.
  pub when : Bool → Exec S E (Unit {0}) → Exec S E (Unit {0})
  when true m s = m s
  when false m s = (ok tt, s)

module _ {S E A B : Type 0} where
  -- `if x is None: … else: …` over an optional value.
  pub maybe : Option A → Exec S E B → (A → Exec S E B) → Exec S E B
  maybe none m f s = m s
  maybe (some a) m f s = f a s

  infixl 10 ◌>>=◌ ◌>>◌
  -- Opening this opens what else a block is made of.
  unfoldable pub ◌>>=◌ : Exec S E A → (A → Exec S E B) → Exec S E B
  unfolding pure raise gets or_raise lift modify raise_if when maybe
  ◌>>=◌ m f s = let (r, s') = m s in resume r s' f

  abbrev pub ◌>>◌ : Exec S E A → Exec S E B → Exec S E B
  m >> k = m >>= λ _. k

module _ {S E A : Type 0} where
  -- `async with repo.transaction()`: an exception rolls everything back.
  unfoldable pub transaction : Exec S E A → Exec S E A
  transaction m s = let (r, s') = m s in undo r s s'
