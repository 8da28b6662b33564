-- ===== src/Delivery/Leases.antt =====
-- Who may work on a message of the outbox
-- (app/app/infrastructure/messaging/durable_delivery.py).
use mathlib.Core.Path.{sym, ap, ◌∙◌, subst}
use mathlib.Core.Option.{some-injective}
use investment_backend.Base.{
  ℕ, ◌+◌, ◌<◌, ◌≡◌, refl, ◌≢◌, true, false, not, ◌&&◌, Option, none, some, [], ◌∷◌, Dict, lookup,
  insert, lookup-insert_self, lookup-insert_ne, ne_of_missing, ==_iff, ◌==◌, if◌then◌else◌, arith,
  Bool-cases, inl, inr,
}
use investment_backend.Base.Exec.{Result, ok, ◌>>=◌}
use investment_backend.Delivery.Outbox.{
  Message, DeliveryFault, Outbox, Delivery, is_dead, is_due, first_due, leased, claim_delivery,
}

-- No two rows have the same key.
abbrev pub IsTable : {V : Type 0} → Dict V → Type 0
IsTable [] = Unit
IsTable ((k, v) ∷ rest) = (lookup k rest ≡ none) × IsTable rest

-- What `claim_delivery` looks for.
pub record Claimable (p : Delivery) (now id : ℕ) (s : Outbox) (rows : Dict Message) (m : Message)
    : Type 0 where
  pub found : lookup id rows ≡ some m
  pub due : is_due p now m ≡ true
  pub alive : is_dead id s ≡ false

pub first_due-Claimable :
    (p : Delivery) (now id : ℕ) (s : Outbox) (rows : Dict Message) (m : Message)
    → IsTable rows
    → first_due p now s rows ≡ some (id, m)
    → Claimable p now id s rows m
unfolding first_due
first_due-Claimable p now id s [] m h e = cc
first_due-Claimable p now id s ((k, v) ∷ rest) m h e =
    elim (Bool-cases (is_due p now v && not (is_dead k s))) [
      | inl here ↦
          let first : (if is_due p now v && not (is_dead k s)
                then some (k, v)
                else first_due p now s rest)
              ≡ some (k, v) =
            rw here refl in
          let same : Path (Option (ℕ × Message)) (some (k, v)) (some (id, m)) = sym first ∙ e in
          let same_key : k ≡ id = cc in
          let same_row : v ≡ m = cc in
          subst (λ (k' : ℕ). Claimable p now k' s ((k, v) ∷ rest) m) same_key
            (subst (λ (v' : Message). Claimable p now k s ((k, v) ∷ rest) v') same_row
              (record { found = ground arith; due = ground arith; alive = ground arith }))
      | inr later ↦
          let second : (if is_due p now v && not (is_dead k s)
                then some (k, v)
                else first_due p now s rest)
              ≡ first_due p now s rest =
            rw later refl in
          let c = first_due-Claimable p now id s rest m h.1 (sym second ∙ e) in
          let apart = ne_of_missing id k rest h.0 c.found in
          let there = c.found in record { found = ground arith; due = c.due; alive = c.alive }
    ]

pub IsTable-insert :
    {V : Type 0} (k : ℕ) (v : V) (rows : Dict V) → IsTable rows → IsTable (insert k v rows)
IsTable-insert k v [] h = (refl, tt)
IsTable-insert k v ((j, w) ∷ rest) h = elim (Bool-cases (k == j)) [
  | inl same ↦ rw same h
  | inr other ↦ rw other (
    lookup-insert_ne j k v rest (λ q. cc ((==_iff k j).1 (sym q))) ∙ h.0,
    IsTable-insert k v rest h.1,
  )
]

-- A claim answers with a row that was due and is not dead, and the row in the table is the one it
-- answers with: the claimed message's new row.
pub record Claimed (p : Delivery) (owner now : ℕ) (s : Outbox) (id : ℕ) (m : Message) (s' : Outbox)
    : Type 0 where
  pub before : Message
  pub was : Claimable p now id s s.messages before
  pub answer : m ≡ leased p owner now before
  pub after : s' ≡ record s { messages = insert id m s.messages }

pub claimed_row :
    (p : Delivery) (owner now : ℕ) (s : Outbox) (row : ℕ × Message)
    → first_due p now s s.messages ≡ some row
    → claim_delivery p owner now s ≡ (
      ok (some (row.0, leased p owner now row.1)),
      record s { messages = insert row.0 (leased p owner now row.1) s.messages },
    )
unfolding claim_delivery ◌>>=◌
claimed_row p owner now s row e = rw e refl

pub no_row :
    (p : Delivery) (owner now : ℕ) (s : Outbox)
    → first_due p now s s.messages ≡ none
    → claim_delivery p owner now s ≡ (ok none, s)
unfolding claim_delivery ◌>>=◌
no_row p owner now s e = rw e refl

claim-Claimed :
    (p : Delivery) (owner now : ℕ) (s : Outbox) (id : ℕ) (m : Message) (s' : Outbox)
    → IsTable s.messages
    → claim_delivery p owner now s ≡ (ok (some (id, m)), s')
    → Claimed p owner now s id m s'
claim-Claimed p owner now s id m s' h e = by_row (first_due p now s s.messages) refl
  where
    by_row :
        (o : Option (ℕ × Message))
        → first_due p now s s.messages ≡ o
        → Claimed p owner now s id m s'
    by_row none q = cc (sym (no_row p owner now s q) ∙ e)
    by_row (some (k, v)) q =
        let both : Path (Result DeliveryFault (Option (ℕ × Message)) × Outbox)
            (
              ok (some (k, leased p owner now v)),
              record s { messages = insert k (leased p owner now v) s.messages },
            )
            (ok (some (id, m)), s') =
          sym (claimed_row p owner now s (k, v) q) ∙ e in
        let same_key : k ≡ id = cc in
        let same_row : leased p owner now v ≡ m = cc in
        let same_store =
          ap (λ (x : Result DeliveryFault (Option (ℕ × Message)) × Outbox). x.1) both in
        record {
          before = v;
          was =
              subst (λ (k' : ℕ). Claimable p now k' s s.messages v) same_key
                (first_due-Claimable p now k s s.messages v h q);
          answer = sym same_row;
          after =
              sym same_store
              ∙ ap (λ (k' : ℕ). record s { messages = insert k' (leased p owner now v) s.messages })
                  same_key
              ∙ ap (λ (m' : Message). record s { messages = insert id m' s.messages }) same_row;
        }

leased_not_due :
    (p : Delivery) (owner now later : ℕ) (m : Message)
    → later < now + p.lease_seconds
    → is_due p later (leased p owner now m) ≡ false
unfolding is_due leased
leased_not_due p owner now later m h = ground arith

-- A message that was claimed is not claimed again before its lease ends: if the second claim comes
-- earlier than that, it answers with another message or with none.
pub claim_exclusive :
    (p : Delivery) (owner now other later : ℕ) (s s' : Outbox) (id : ℕ) (m : Message)
    → IsTable s.messages
    → claim_delivery p owner now s ≡ (ok (some (id, m)), s')
    → later < now + p.lease_seconds
    → (m' : Message) → (claim_delivery p other later s').0 ≢ ok (some (id, m'))
claim_exclusive p owner now other later s s' id m h e soon m' again =
    let first = claim-Claimed p owner now s id m s' h e in
    let table : IsTable s'.messages =
      subst (λ (x : Outbox). IsTable x.messages) (sym first.after)
        (IsTable-insert id m s.messages h) in
    let second =
      claim-Claimed p other later s' id m' (claim_delivery p other later s').1 table
        (λ i. (again i, (claim_delivery p other later s').1)) in
    let there : lookup id s'.messages ≡ some m =
      ap (λ (x : Outbox). lookup id x.messages) first.after ∙ lookup-insert_self id m s.messages in
    let same : second.before ≡ leased p owner now first.before =
      some-injective _ _ (sym second.was.found ∙ there) ∙ first.answer in
    let due = second.was.due in let idle = leased_not_due p owner now later first.before soon in cc

-- A claim is honest: the message was there, its topic is one of the publisher's, its time had come,
-- it is in no open entry of the dead letters, and its row, counted up and leased to the caller, is
-- what the caller gets and what stands in the table.
pub claim_sound :
    (p : Delivery) (owner now : ℕ) (s s' : Outbox) (id : ℕ) (m : Message)
    → IsTable s.messages
    → claim_delivery p owner now s ≡ (ok (some (id, m)), s')
    → (old : Message) × (lookup id s.messages ≡ some old)
      × (is_due p now old ≡ true)
      × (is_dead id s ≡ false)
      × (m ≡ leased p owner now old)
      × (lookup id s'.messages ≡ some m)
claim_sound p owner now s s' id m h e =
    let c = claim-Claimed p owner now s id m s' h e in
    (
      c.before,
      c.was.found,
      c.was.due,
      c.was.alive,
      c.answer,
      ap (λ (x : Outbox). lookup id x.messages) c.after ∙ lookup-insert_self id m s.messages,
    )
