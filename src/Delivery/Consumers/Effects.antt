-- ===== src/Delivery/Consumers/Effects.antt =====
-- What the transactions of a consumer do to the tables.
use mathlib.Core.Path.{sym, ap, ◌∙◌, subst}
use mathlib.Core.Option.{some-injective}
use investment_backend.Base.{
  ℕ, ◌+◌, ◌≤◌, ◌≡◌, refl, Bool, true, false, Option, none, some, ◌∷◌, lookup, lookup-insert,
  lookup-insert_self, ◌==◌, ==_iff, if◌then◌else◌, Bool-cases, inl, inr, arith,
}
use investment_backend.Base.Exec.{ok, err, ◌>>=◌, transaction}
use investment_backend.Delivery.Outbox.{Message, Execution, Outbox, Delivery, lease_lost, marked}
use investment_backend.Delivery.Consumers.{
  ConsumerLease, next_epoch, put_execution, lease_of, take_execution, is_mine, is_current, set_end,
  renew, owned, release, claim_inbox_once, commit_work,
}

-- Epochs only grow, and nothing but the leases changes.
pub record Calm (s s' : Outbox) : Type 0 where
  pub messages_same : s'.messages ≡ s.messages
  pub inbox_same : s'.inbox ≡ s.inbox
  pub grown :
      (k : ℕ) (e : Execution)
      → lookup k s.executions ≡ some e
      → (e' : Execution) × (lookup k s'.executions ≡ some e') × (e.epoch ≤ e'.epoch)

pub Calm-refl : (s : Outbox) → Calm s s
Calm-refl s = record {
  messages_same = refl;
  inbox_same = refl;
  grown = λ k e h. (e, h, omega arith);
}

pub Calm-trans : (s t u : Outbox) → Calm s t → Calm t u → Calm s u
Calm-trans s t u a b = record {
  messages_same = b.messages_same ∙ a.messages_same;
  inbox_same = b.inbox_same ∙ a.inbox_same;
  grown = λ k e h.
      let (e', h', le) = a.grown k e h in
      let (e'', h'', le') = b.grown k e' h' in (e'', h'', omega arith);
}

-- A row that is written over one of no larger epoch
pub put_execution-Calm :
    (key : ℕ) (e : Execution) (s : Outbox)
    → ((old : Execution) → lookup key s.executions ≡ some old → old.epoch ≤ e.epoch)
    → Calm s (put_execution key e s).1
unfolding put_execution ◌>>=◌
put_execution-Calm key e s below = record {
  messages_same = refl;
  inbox_same = refl;
  grown = λ k row h. elim (Bool-cases (k == key)) [
    | inl same ↦
        let at_key : k ≡ key = (==_iff k key).0 same in
        (
          e,
          lookup-insert k key e s.executions
              ∙ ap (λ (b : Bool). if b then some e else lookup k s.executions) same,
          below row (subst (λ (j : ℕ). lookup j s.executions ≡ some row) at_key h),
        )
    | inr other ↦ (
      row,
      lookup-insert k key e s.executions
          ∙ ap (λ (b : Bool). if b then some e else lookup k s.executions) other
          ∙ h,
      omega arith,
    )
  ];
}

set_end-Calm :
    (key : ℕ) (end : ℕ) (row : Option Execution) (s : Outbox)
    → lookup key s.executions ≡ row
    → Calm s (set_end key row end s).1
unfolding set_end ◌>>=◌
set_end-Calm key end none s h = Calm-refl s
set_end-Calm key end (some e) s h =
    put_execution-Calm key (record e { expires_at = end }) s
      (λ old was.
        let same : old ≡ e = some-injective old e (sym was ∙ h) in
        let epochs : old.epoch ≡ e.epoch = ap (λ (x : Execution). x.epoch) same in omega arith)

renew_current :
    (p : Delivery) (l : ConsumerLease) (now : ℕ) (e : Execution) (s : Outbox)
    → lookup l.resource s.executions ≡ some e
    → is_current now l (some e) ≡ true
    → renew p l now s ≡ (ok tt, (set_end l.resource (some e) (now + p.lease_seconds) s).1)
unfolding renew transaction ◌>>=◌ set_end put_execution
renew_current p l now e s found current = rw found (rw current refl)

renew_lost :
    (p : Delivery) (l : ConsumerLease) (now : ℕ) (row : Option Execution) (s : Outbox)
    → lookup l.resource s.executions ≡ row
    → is_current now l row ≡ false
    → renew p l now s ≡ (err lease_lost, s)
unfolding renew transaction ◌>>=◌
renew_lost p l now row s found lost = rw found (rw lost refl)

pub renew-Calm :
    (p : Delivery) (l : ConsumerLease) (now : ℕ) (s : Outbox) → Calm s (renew p l now s).1
unfolding is_current
renew-Calm p l now s = by_row (lookup l.resource s.executions) refl
  where
    by_row :
        (row : Option Execution) → lookup l.resource s.executions ≡ row → Calm s (renew p l now s).1
    by_row none found = rw (renew_lost p l now none s found refl) (Calm-refl s)
    by_row (some e) found = elim (Bool-cases (is_current now l (some e))) [
      | inl current ↦
          rw (renew_current p l now e s found current)
            (set_end-Calm l.resource (now + p.lease_seconds) (some e) s found)
      | inr lost ↦ rw (renew_lost p l now (some e) s found lost) (Calm-refl s)
    ]

pub release-Calm : (l : ConsumerLease) (s : Outbox) → Calm s (release l s).1
unfolding release ◌>>=◌
release-Calm l s = elim (Bool-cases (owned l (lookup l.resource s.executions))) [
  | inl mine ↦ rw mine (set_end-Calm l.resource 0 (lookup l.resource s.executions) s refl)
  | inr other ↦ rw other (Calm-refl s)
]

-- What a lease that was taken says of the row that it was written over, and of the inbox.
pub record Taken (key id now : ℕ) (m : Message) (lease : ConsumerLease) (s s' : Outbox)
    : Type 0 where
  pub at_key : lease.resource ≡ key
  pub of_message : lease.message_id ≡ id
  pub newer : (old : Execution) → lookup key s.executions ≡ some old → old.epoch + 1 ≡ lease.epoch
  pub row : Execution
  pub found : lookup key s'.executions ≡ some row
  pub epochs : row.epoch ≡ lease.epoch
  pub unmarked : marked m.topic id s'.inbox ≡ false

next_epoch-above :
    (now n : ℕ) (old : Execution) → next_epoch now (some old) ≡ some n → old.epoch + 1 ≡ n
unfolding next_epoch
next_epoch-above now n old h = ground arith

module _ (resource_key : ℕ → ℕ → ℕ) (p : Delivery) (id owner now : ℕ) (m : Message)
    (s : Outbox) where
  abbrev key : ℕ
  key = resource_key m.topic m.aggregate_key

  abbrev row_of : ℕ → Execution
  row_of n = record {
    message_id = id;
    owner = owner;
    epoch = n;
    expires_at = now + p.lease_seconds;
  }

  pub take_held :
      next_epoch now (lookup key s.executions) ≡ none
      → take_execution resource_key p id m owner now s ≡ (ok none, s)
  unfolding take_execution ◌>>=◌
  take_held e = rw e refl

  pub take_new :
      (n : ℕ)
      → next_epoch now (lookup key s.executions) ≡ some n
      → marked m.topic id s.inbox ≡ false
      → take_execution resource_key p id m owner now s
        ≡ (ok (some (lease_of key id owner n)), (put_execution key (row_of n) s).1)
  unfolding take_execution ◌>>=◌ put_execution
  take_new n e fresh = rw e (rw fresh refl)

  take_done :
      (n : ℕ)
      → next_epoch now (lookup key s.executions) ≡ some n
      → marked m.topic id s.inbox ≡ true
      → take_execution resource_key p id m owner now s ≡ (
        ok none,
        (put_execution key
            (record (row_of n) { expires_at = 0 })
            (put_execution key (row_of n) s).1).1,
      )
  unfolding take_execution ◌>>=◌ put_execution
  take_done n e done = rw e (rw done refl)

  below :
      (n : ℕ)
      → next_epoch now (lookup key s.executions) ≡ some n
      → (old : Execution) → lookup key s.executions ≡ some old
      → old.epoch + 1 ≡ n
  below n e old was =
      next_epoch-above now n old (subst (λ (r : Option Execution). next_epoch now r ≡ some n) was e)

  put_new-Calm :
      (n : ℕ)
      → next_epoch now (lookup key s.executions) ≡ some n
      → Calm s (put_execution key (row_of n) s).1
  put_new-Calm n e =
      put_execution-Calm key (row_of n) s (λ old was. let up = below n e old was in omega arith)

  put_found : (n : ℕ) → lookup key (put_execution key (row_of n) s).1.executions ≡ some (row_of n)
  unfolding put_execution ◌>>=◌
  put_found n = lookup-insert_self key (row_of n) s.executions

  pub take-Calm : Calm s (take_execution resource_key p id m owner now s).1
  take-Calm = by_epoch (next_epoch now (lookup key s.executions)) refl
    where
      by_epoch :
          (o : Option ℕ)
          → next_epoch now (lookup key s.executions) ≡ o
          → Calm s (take_execution resource_key p id m owner now s).1
      by_epoch none e = rw (take_held e) (Calm-refl s)
      by_epoch (some n) e = elim (Bool-cases (marked m.topic id s.inbox)) [
        | inl done ↦ rw (take_done n e done) (
            Calm-trans s (put_execution key (row_of n) s).1 _ (put_new-Calm n e) (
              put_execution-Calm key (record (row_of n) { expires_at = 0 })
                (put_execution key (row_of n) s).1
                (λ old was.
                  let same : row_of n ≡ old =
                    some-injective (row_of n) old (sym (put_found n) ∙ was) in
                  let epochs : n ≡ old.epoch = ap (λ (x : Execution). x.epoch) same in
                  omega arith)))
        | inr fresh ↦ rw (take_new n e fresh) (put_new-Calm n e)
      ]

  lease_of-Taken :
      (n : ℕ)
      → next_epoch now (lookup key s.executions) ≡ some n
      → marked m.topic id s.inbox ≡ false
      → Taken key id now m (lease_of key id owner n) s (put_execution key (row_of n) s).1
  lease_of-Taken n e fresh = record {
    at_key = refl;
    of_message = refl;
    newer = below n e;
    row = row_of n;
    found = put_found n;
    epochs = refl;
    unmarked = (let calm = put_new-Calm n e in rw calm.inbox_same fresh);
  }

  pub take-Taken :
      (lease : ConsumerLease)
      → (take_execution resource_key p id m owner now s).0 ≡ ok (some lease)
      → Taken key id now m lease s (take_execution resource_key p id m owner now s).1
  take-Taken lease h = by_epoch (next_epoch now (lookup key s.executions)) refl
    where
      by_epoch :
          (o : Option ℕ)
          → next_epoch now (lookup key s.executions) ≡ o
          → Taken key id now m lease s (take_execution resource_key p id m owner now s).1
      by_epoch none e =
          let no : (take_execution resource_key p id m owner now s).0 ≡ ok none =
            rw (take_held e) refl in
          cc
      by_epoch (some n) e = elim (Bool-cases (marked m.topic id s.inbox)) [
        | inl done ↦
            let no : (take_execution resource_key p id m owner now s).0 ≡ ok none =
              rw (take_done n e done) refl in
            cc
        | inr fresh ↦
            let got : (take_execution resource_key p id m owner now s).0
                ≡ ok (some (lease_of key id owner n)) =
              rw (take_new n e fresh) refl in
            let same : lease_of key id owner n ≡ lease = cc in
            rw (take_new n e fresh) (
              subst
                (λ (l : ConsumerLease). Taken key id now m l s (put_execution key (row_of n) s).1)
                same (lease_of-Taken n e fresh))
      ]

-- A commit that goes through: the row was the lease's, and the inbox is marked.
pub record Committed (l : ConsumerLease) (m : Message) (s s' : Outbox) : Type 0 where
  pub row : Execution
  pub found : lookup l.resource s.executions ≡ some row
  pub epochs : row.epoch ≡ l.epoch
  pub after : s' ≡ (claim_inbox_once m.topic l.message_id s).1

claim_inbox_once-executions :
    (consumer id : ℕ) (s : Outbox) → (claim_inbox_once consumer id s).1.executions ≡ s.executions
unfolding claim_inbox_once ◌>>=◌
claim_inbox_once-executions consumer id s = elim (Bool-cases (marked consumer id s.inbox)) [
  | inl known ↦ rw known refl
  | inr new ↦ rw new refl
]

pub claim_inbox_once-new :
    (consumer id : ℕ) (s : Outbox)
    → marked consumer id s.inbox ≡ false
    → (claim_inbox_once consumer id s).1 ≡ record s { inbox = (consumer, id) ∷ s.inbox }
unfolding claim_inbox_once ◌>>=◌
claim_inbox_once-new consumer id s new = rw new refl

module _ (l : ConsumerLease) (m : Message) (now : ℕ) (s : Outbox) where
  pub commit_current :
      (e : Execution)
      → lookup l.resource s.executions ≡ some e
      → is_current now l (some e) ≡ true
      → commit_work l m now s ≡ (ok tt, (claim_inbox_once m.topic l.message_id s).1)
  unfolding commit_work transaction ◌>>=◌ claim_inbox_once
  commit_current e found current = elim (Bool-cases (marked m.topic l.message_id s.inbox)) [
    | inl known ↦ rw known (rw found (rw current refl))
    | inr new ↦ rw new (rw found (rw current refl))
  ]

  pub commit_lost :
      (row : Option Execution)
      → lookup l.resource s.executions ≡ row
      → is_current now l row ≡ false
      → commit_work l m now s ≡ (err lease_lost, s)
  unfolding commit_work transaction ◌>>=◌ claim_inbox_once
  commit_lost row found lost = elim (Bool-cases (marked m.topic l.message_id s.inbox)) [
    | inl known ↦ rw known (rw found (rw lost refl))
    | inr new ↦ rw new (rw found (rw lost refl))
  ]

  current-epochs : (e : Execution) → is_current now l (some e) ≡ true → e.epoch ≡ l.epoch
  unfolding is_current is_mine
  current-epochs e h = ground arith

  pub commit-Committed :
      (commit_work l m now s).0 ≡ ok tt → Committed l m s (commit_work l m now s).1
  unfolding is_current
  commit-Committed h = by_row (lookup l.resource s.executions) refl
    where
      by_row :
          (row : Option Execution)
          → lookup l.resource s.executions ≡ row
          → Committed l m s (commit_work l m now s).1
      by_row none found =
          let no : (commit_work l m now s).0 ≡ err lease_lost =
            rw (commit_lost none found refl) refl in
          cc
      by_row (some e) found = elim (Bool-cases (is_current now l (some e))) [
        | inl current ↦ record {
          row = e;
          found = found;
          epochs = current-epochs e current;
          after = rw (commit_current e found current) refl;
        }
        | inr lost ↦
            let no : (commit_work l m now s).0 ≡ err lease_lost =
              rw (commit_lost (some e) found lost) refl in
            cc
      ]
