-- ===== src/Delivery/Consumers/Keeps.antt =====
-- The steps `publish`, `look` and `take` of the consumers, and what holds of them.
use mathlib.Core.Path.{sym, ap, ◌∙◌, subst}
use investment_backend.Base.{
  ℕ, ◌≡◌, refl, ◌≢◌, Bool, Option, none, some, List, lookup, ◌==◌, ==_iff, if◌then◌else◌,
  Bool-cases, ◌⊎◌, inl, inr, arith,
}
use investment_backend.Base.Exec.{ok, ◌>>=◌}
use investment_backend.Delivery.Outbox.{Message, Outbox, Delivery}
use investment_backend.Delivery.Consumers.{ConsumerLease, find_execution, is_workable}
use investment_backend.Delivery.Consumers.System.{Phase, looked, working, update, Home, KeepsHomes}
use investment_backend.Delivery.Consumers.Effects.{Calm, Taken}
use investment_backend.Delivery.Consumers.Invariant.{
  Knows, Fenced, Inv, Home-messages, Knows-messages, Fenced-Calm,
}

pub find-Home :
    (p : Delivery) (id now : ℕ) (m : Message) (s : Outbox)
    → (find_execution p id now s).0 ≡ ok (some m)
    → Home s id m
unfolding find_execution ◌>>=◌
find-Home p id now m s h = by_row (lookup id s.messages) refl
  where
    by_row : (o : Option Message) → lookup id s.messages ≡ o → Home s id m
    by_row none e = let no : (find_execution p id now s).0 ≡ ok none = rw e refl in cc
    by_row (some v) e = elim (Bool-cases (is_workable p now id v s)) [
      | inl can ↦
          let got : (find_execution p id now s).0 ≡ ok (some v) = rw e (rw can refl) in
          let same : v ≡ m = cc in
          record {
            row = v;
            found = e;
            topic = ap (λ (x : Message). x.topic) same;
            key = ap (λ (x : Message). x.aggregate_key) same;
          }
      | inr cannot ↦ let no : (find_execution p id now s).0 ≡ ok none = rw e (rw cannot refl) in cc
    ]

module _ (key : ℕ → ℕ → ℕ) (effects : List (ℕ × ℕ)) where
  pub Inv-publish :
      (s s' : Outbox) (worker : ℕ → Phase)
      → KeepsHomes s s'
      → Inv key s effects worker
      → Inv key s' effects worker
  Inv-publish s s' worker c v = record {
    knows = λ i. Knows-messages key s s' (worker i) c.homes (v.knows i);
    fenced = λ i l m e.
        let f = v.fenced i l m e in
        record {
          row = f.row;
          found = ap (λ (d : _). lookup l.resource d) c.executions_same ∙ f.found;
          old = f.old;
          open_yet = λ same. rw c.inbox_same (f.open_yet same);
        };
    unique = v.unique;
    acknowledged = λ t id h. rw c.inbox_same (v.acknowledged t id h);
    once = v.once;
  }

  module _ (s s' : Outbox) (worker : ℕ → Phase) (i id now : ℕ) (m : Message) (lease : ConsumerLease)
      (v : Inv key s effects worker) (calm : Calm s s')
      (taken : Taken (key m.topic m.aggregate_key) id now m lease s s')
      (was : worker i ≡ looked id m) where
    take-Knows : Knows key s' (working lease m)
    take-Knows =
        let home : Home s id m = subst (Knows key s) was (v.knows i) in
        (
          subst (λ (n : ℕ). Home s' n m) (sym taken.of_message)
              (Home-messages s s' id m calm.messages_same home),
          taken.at_key,
        )

    take-Fenced : Fenced s' lease m
    take-Fenced = record {
      row = taken.row;
      found = ap (λ (k : ℕ). lookup k s'.executions) taken.at_key ∙ taken.found;
      old = (let e = taken.epochs in omega arith);
      open_yet = λ same. rw taken.of_message taken.unmarked;
    }

    -- A lease that was there before is of an older epoch.
    older :
        (l : ConsumerLease) (m' : Message)
        → Fenced s l m'
        → l.resource ≡ lease.resource
        → l.epoch ≢ lease.epoch
    older l m' f same epochs =
        let up =
          taken.newer f.row
            (sym (ap (λ (k : ℕ). lookup k s.executions) (same ∙ taken.at_key)) ∙ f.found) in
        let o = f.old in absurd (omega arith)

    at_work :
        (j : ℕ) (l : ConsumerLease) (m' : Message)
        → update worker i (working lease m) j ≡ working l m'
        → ((i ≡ j) × (lease ≡ l) × (m ≡ m')) ⊎ (worker j ≡ working l m')
    at_work j l m' e = elim (Bool-cases (i == j)) [
      | inl same ↦
          let both : working lease m ≡ working l m' =
            sym (ap (λ (b : Bool). if b then working lease m else worker j) same) ∙ e in
          let leases : lease ≡ l = cc in
          let messages : m ≡ m' = cc in inl ((==_iff i j).0 same, leases, messages)
      | inr other ↦ inr (sym (ap (λ (b : Bool). if b then working lease m else worker j) other) ∙ e)
    ]

    unique_after :
        (j j' : ℕ) (l l' : ConsumerLease) (n n' : Message)
        → update worker i (working lease m) j ≡ working l n
        → update worker i (working lease m) j' ≡ working l' n'
        → l.resource ≡ l'.resource
        → l.epoch ≡ l'.epoch
        → j ≡ j'
    unique_after j j' l l' n n' e e' resources epochs = elim (at_work j l n e) [
      | inl (at_i, leases, _) ↦ elim (at_work j' l' n' e') [
        | inl (at_i', _, _) ↦ sym at_i ∙ at_i'
        | inr there' ↦
            let f = v.fenced j' l' n' there' in
            let r : l'.resource ≡ lease.resource =
              sym resources ∙ ap (λ (x : ConsumerLease). x.resource) (sym leases) in
            let g : l'.epoch ≡ lease.epoch =
              sym epochs ∙ ap (λ (x : ConsumerLease). x.epoch) (sym leases) in
            absurd (older l' n' f r g)
      ]
      | inr there ↦ elim (at_work j' l' n' e') [
        | inl (_, leases', _) ↦
            let f = v.fenced j l n there in
            let r : l.resource ≡ lease.resource =
              resources ∙ ap (λ (x : ConsumerLease). x.resource) (sym leases') in
            let g : l.epoch ≡ lease.epoch =
              epochs ∙ ap (λ (x : ConsumerLease). x.epoch) (sym leases') in
            absurd (older l n f r g)
        | inr there' ↦ v.unique j j' l l' n n' there there' resources epochs
      ]
    ]

    pub Inv-take : Inv key s' effects (update worker i (working lease m))
    Inv-take = record {
      knows = λ j. elim (Bool-cases (i == j)) [
        | inl same ↦ rw same take-Knows
        | inr other ↦ rw other (
            Knows-messages key s s' (worker j) (λ n x. Home-messages s s' n x calm.messages_same)
              (v.knows j))
      ];
      fenced = λ j l m' e. elim (at_work j l m' e) [
        | inl (_, leases, messages) ↦
            subst (λ (x : ConsumerLease). Fenced s' x m') leases
              (subst (λ (x : Message). Fenced s' lease x) messages take-Fenced)
        | inr there ↦ Fenced-Calm s s' l m' calm (v.fenced j l m' there)
      ];
      unique = unique_after;
      acknowledged = λ t n h. rw calm.inbox_same (v.acknowledged t n h);
      once = v.once;
    }
