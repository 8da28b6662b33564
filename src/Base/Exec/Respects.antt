-- ===== src/Base/Exec/Respects.antt =====
-- A method respects a relation between stores when it leads from each store to a related one,
-- whether it returns or raises. Invariants and growth are such relations, and a block is proved
-- step by step.
use mathlib.Core.Path.{◌≡◌, refl, ◌∙◌}
use mathlib.Core.Bool.{Bool, true, false}
use mathlib.Core.Option.{Option, none, some}
use investment_backend.Base.Tests.{if◌then◌else◌}
use investment_backend.Base.Exec.{
  Exec, Result, ok, err, pure, raise, gets, or_raise, lift, raise_if, when, maybe, ◌>>=◌, resume,
  undo, transaction,
}

pub record IsPreorder {S : Type 0} (R : S → S → Type 0) : Type 0 where
  pub reflexive : (s : S) → R s s
  pub transitive : (s t u : S) → R s t → R t u → R s u

pub record Respects {S E A : Type 0} (R : S → S → Type 0) (m : Exec S E A) : Type 0 where
  pub at : (s : S) → R s (m s).1

module _ {S E A : Type 0} {R : S → S → Type 0} (p : IsPreorder R) where
  pub Respects-pure : (a : A) → Respects R (pure {E = E} a)
  unfolding pure
  Respects-pure a = record { at = λ s. p.reflexive s }

  pub Respects-raise : (e : E) → Respects R (raise {A = A} e)
  unfolding raise
  Respects-raise e = record { at = λ s. p.reflexive s }

  pub Respects-gets : (f : S → A) → Respects R (gets {E = E} f)
  unfolding gets
  Respects-gets f = record { at = λ s. p.reflexive s }

  pub Respects-lift : (r : Result E A) → Respects R (lift r)
  unfolding lift
  Respects-lift r = record { at = λ s. p.reflexive s }

  pub Respects-or_raise : (o : Option A) (e : E) → Respects R (or_raise o e)
  unfolding or_raise
  Respects-or_raise none e = record { at = λ s. p.reflexive s }
  Respects-or_raise (some a) e = record { at = λ s. p.reflexive s }

  pub Respects-transaction : (m : Exec S E A) → Respects R m → Respects R (transaction m)
  unfolding transaction
  Respects-transaction m h = record { at = λ s. outcome (m s).0 s (m s).1 (h.at s) }
    where
      outcome : (r : Result E A) (s t : S) → R s t → R s (undo r s t).1
      outcome (ok a) s t k = k
      outcome (err e) s t k = p.reflexive s

module _ {S E : Type 0} {R : S → S → Type 0} (p : IsPreorder R) where
  pub Respects-raise_if : (b : Bool) (e : E) → Respects R (raise_if b e)
  unfolding raise_if
  Respects-raise_if true e = record { at = λ s. p.reflexive s }
  Respects-raise_if false e = record { at = λ s. p.reflexive s }

  pub Respects-when : (b : Bool) (m : Exec S E (Unit {0})) → Respects R m → Respects R (when b m)
  unfolding when
  Respects-when true m h = record { at = h.at }
  Respects-when false m h = record { at = λ s. p.reflexive s }

module _ {S E A : Type 0} {R : S → S → Type 0} where
  pub Respects-if :
      (b : Bool) (m n : Exec S E A) → Respects R m → Respects R n → Respects R (if b then m else n)
  Respects-if true m n h k = h
  Respects-if false m n h k = k

module _ {S E A B : Type 0} {R : S → S → Type 0} where
  pub Respects-maybe :
      (o : Option A) (m : Exec S E B) (f : A → Exec S E B)
      → Respects R m
      → ((a : A) → o ≡ some a → Respects R (f a))
      → Respects R (maybe o m f)
  unfolding maybe
  Respects-maybe none m f h k = record { at = h.at }
  Respects-maybe (some a) m f h k = record { at = (k a refl).at }

module _ {S E A B : Type 0} {R : S → S → Type 0} (p : IsPreorder R) where
  -- From a fixed store: the rest may use what the first part returned there.
  pub >>=_at :
      (m : Exec S E A) (f : A → Exec S E B) (s : S)
      → R s (m s).1
      → ((a : A) (t : S) → m s ≡ (ok a, t) → R t (f a t).1)
      → R s ((m >>= f) s).1
  unfolding ◌>>=◌
  >>=_at m f s h k = rest (m s).0 (m s).1 refl h
    where
      rest : (r : Result E A) (t : S) → m s ≡ (r, t) → R s t → R s (resume r t f).1
      rest (ok a) t e g = p.transitive s t (f a t).1 g (k a t e)
      rest (err x) t e g = g

  pub >>=_then :
      (m : Exec S E A) (f : A → Exec S E B) (s : S)
      → R s (m s).1
      → ((a : A) → Respects R (f a))
      → R s ((m >>= f) s).1
  >>=_then m f s h k = >>=_at m f s h (λ a t e. (k a).at t)

  pub Respects-bind :
      (m : Exec S E A) (f : A → Exec S E B)
      → Respects R m
      → ((a : A) → Respects R (f a))
      → Respects R (m >>= f)
  Respects-bind m f h k = record { at = λ s. >>=_at m f s (h.at s) (λ a t e. (k a).at t) }

pub ruleset respects_rules = (
  Respects-pure, Respects-raise, Respects-gets, Respects-lift, Respects-or_raise,
  Respects-transaction, Respects-raise_if, Respects-when, Respects-if, Respects-maybe,
  Respects-bind,
)

-- What a block that returned went through.
pub >>=-eq-ok :
    {S E A B : Type 0} (m : Exec S E A) (f : A → Exec S E B) (s : S) {b : B} {u : S}
    → (m >>= f) s ≡ (ok b, u)
    → (a : A) × (t : S) × (m s ≡ (ok a, t)) × (f a t ≡ (ok b, u))
unfolding ◌>>=◌
>>=-eq-ok {S} {E} {A} {B} m f s {b} {u} h = rest (m s).0 (m s).1 refl h
  where
    rest :
        (r : Result E A) (t : S)
        → m s ≡ (r, t)
        → resume r t f ≡ (ok b, u)
        → (a : A) × (t : S) × (m s ≡ (ok a, t)) × (f a t ≡ (ok b, u))
    rest (ok a) t e g = (a, t, e, g)
    rest (err x) t e g = cc

-- A transaction that returns is its block.
pub transaction-eq-ok :
    {S E A : Type 0} (m : Exec S E A) (s : S) {a : A} {t : S}
    → transaction m s ≡ (ok a, t)
    → m s ≡ (ok a, t)
unfolding transaction
transaction-eq-ok {S} {E} {A} m s {a} {t} h = by_result (m s).0 (m s).1 refl h
  where
    by_result : (r : Result E A) (u : S) → m s ≡ (r, u) → undo r s u ≡ (ok a, t) → m s ≡ (ok a, t)
    by_result (ok x) u e g = e ∙ g
    by_result (err x) u e g = cc

-- An invariant as a relation: what holds before holds after.
pub record Keeps {S : Type 0} (I : S → Type 0) (s t : S) : Type 0 where
  pub keep : I s → I t

pub Keeps-preorder : {S : Type 0} (I : S → Type 0) → IsPreorder (Keeps I)
Keeps-preorder I = record {
  reflexive = λ s. record { keep = λ h. h };
  transitive = λ s t u a b. record { keep = λ h. b.keep (a.keep h) };
}
