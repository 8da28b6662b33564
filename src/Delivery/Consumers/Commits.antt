-- ===== src/Delivery/Consumers/Commits.antt =====
-- The step `commit` of the consumers, and what holds of them.
use mathlib.Core.Path.{sym, ap, ◌∙◌, subst}
use mathlib.Core.Option.{some-injective}
use investment_backend.Base.{
  ℕ, ◌≡◌, refl, ◌≢◌, Bool, true, false, ◌&&◌, ◌||◌, some, List, ◌∷◌, lookup, ◌==◌, ==_iff,
  if◌then◌else◌, Bool-cases, inl, inr, arith,
}
use investment_backend.Delivery.Outbox.{Message, Execution, Outbox, marked}
use investment_backend.Delivery.Consumers.{ConsumerLease}
use investment_backend.Delivery.Consumers.System.{Phase, working, leaving, update, Home}
use investment_backend.Delivery.Consumers.Effects.{Committed, claim_inbox_once-new}
use investment_backend.Delivery.Consumers.Invariant.{
  Knows, Fenced, Inv, Home-messages, Knows-messages,
}

both_true : (a b : Bool) → a && b ≡ true → (a ≡ true) × (b ≡ true)
both_true a b h = (ground arith, ground arith)

or_mono : (x a b : Bool) → (a ≡ true → b ≡ true) → x || a ≡ true → x || b ≡ true
or_mono true a b f h = refl
or_mono false a b f h = f h

module _ (key : ℕ → ℕ → ℕ) (effects : List (ℕ × ℕ)) (s s' : Outbox) (worker : ℕ → Phase) (i : ℕ)
    (m : Message) (lease : ConsumerLease) (v : Inv key s effects worker)
    (was : worker i ≡ working lease m) (done : Committed lease m s s') where
  -- Under the fence nobody has acknowledged the message.
  fresh : marked m.topic lease.message_id s.inbox ≡ false
  fresh =
      let f = v.fenced i lease m was in
      let same : f.row ≡ done.row = some-injective f.row done.row (sym f.found ∙ done.found) in
      f.open_yet (ap (λ (x : Execution). x.epoch) same ∙ done.epochs)

  after : s' ≡ record s { inbox = (m.topic, lease.message_id) ∷ s.inbox }
  after = done.after ∙ claim_inbox_once-new m.topic lease.message_id s fresh

  -- It is the first commit for the message.
  pub first : marked m.topic lease.message_id effects ≡ false
  first = elim (Bool-cases (marked m.topic lease.message_id effects)) [
    | inl again ↦ let seen = v.acknowledged m.topic lease.message_id again in cc fresh
    | inr new ↦ new
  ]

  same_key :
      (l : ConsumerLease) (n : Message)
      → lease.message_id ≡ l.message_id
      → Home s lease.message_id m
      → Home s l.message_id n
      → m.aggregate_key ≡ n.aggregate_key
  same_key l n ids a b =
      let rows : a.row ≡ b.row =
        some-injective a.row b.row
          (sym a.found ∙ ap (λ (k : ℕ). lookup k s.messages) ids ∙ b.found) in
      sym a.key ∙ ap (λ (x : Message). x.aggregate_key) rows ∙ b.key

  same_resource :
      (n : Message)
      → m.topic ≡ n.topic
      → m.aggregate_key ≡ n.aggregate_key
      → key m.topic m.aggregate_key ≡ key n.topic n.aggregate_key
  same_resource n a b = ap (λ (t : ℕ). key t m.aggregate_key) a ∙ ap (key n.topic) b

  same_epoch :
      (l : ConsumerLease) (row : Execution)
      → lookup l.resource s.executions ≡ some row
      → row.epoch ≡ l.epoch
      → lease.resource ≡ l.resource
      → lease.epoch ≡ l.epoch
  same_epoch l row found epochs resources =
      let rows : done.row ≡ row =
        some-injective done.row row
          (sym done.found ∙ ap (λ (k : ℕ). lookup k s.executions) resources ∙ found) in
      sym done.epochs ∙ ap (λ (x : Execution). x.epoch) rows ∙ epochs

  -- Two leases at work on one message are one.
  apart :
      (j : ℕ) (l : ConsumerLease) (n : Message)
      → i ≢ j
      → worker j ≡ working l n
      → (row : Execution) → lookup l.resource s.executions ≡ some row
      → row.epoch ≡ l.epoch
      → (m.topic == n.topic && lease.message_id == l.message_id) ≡ false
  apart j l n other at_work row found epochs =
      elim (Bool-cases (m.topic == n.topic && lease.message_id == l.message_id)) [
        | inl both ↦
            let topics = (==_iff m.topic n.topic).0 (both_true _ _ both).0 in
            let ids = (==_iff lease.message_id l.message_id).0 (both_true _ _ both).1 in
            let mine = subst (Knows key s) was (v.knows i) in
            let others = subst (Knows key s) at_work (v.knows j) in
            absurd (
              other (
                v.unique i j lease l m n was at_work
                  (mine.1
                    ∙ same_resource n topics (same_key l n ids mine.0 others.0)
                    ∙ sym others.1)
                  (same_epoch l row found epochs (
                    mine.1
                    ∙ same_resource n topics (same_key l n ids mine.0 others.0)
                    ∙ sym others.1))))
        | inr no_match ↦ no_match
      ]

  others :
      (j : ℕ) (l : ConsumerLease) (n : Message)
      → update worker i (leaving lease) j ≡ working l n
      → (i ≢ j) × (worker j ≡ working l n)
  others j l n e = elim (Bool-cases (i == j)) [
    | inl same ↦
        let no : leaving lease ≡ working l n =
          sym (ap (λ (b : Bool). if b then leaving lease else worker j) same) ∙ e in
        cc
    | inr other ↦ (
      (λ q. cc ((==_iff i j).1 q)),
      sym (ap (λ (b : Bool). if b then leaving lease else worker j) other) ∙ e,
    )
  ]

  abbrev marked_box : Outbox
  marked_box = record s { inbox = (m.topic, lease.message_id) ∷ s.inbox }

  commit-Fenced :
      (j : ℕ) (l : ConsumerLease) (n : Message)
      → update worker i (leaving lease) j ≡ working l n
      → Fenced marked_box l n
  commit-Fenced j l n e =
      let (other, at_work) = others j l n e in
      let f = v.fenced j l n at_work in
      record {
        row = f.row;
        found = f.found;
        old = f.old;
        open_yet = λ same. rw (apart j l n other at_work f.row f.found same) (f.open_yet same);
      }

  commit-Knows : (j : ℕ) → Knows key marked_box (update worker i (leaving lease) j)
  commit-Knows j = elim (Bool-cases (i == j)) [
    | inl same ↦ rw same tt
    | inr other ↦ rw other (
        Knows-messages key s marked_box (worker j) (λ k x. Home-messages s marked_box k x refl)
          (v.knows j))
  ]

  pub Inv-commit :
      Inv key s' ((m.topic, lease.message_id) ∷ effects) (update worker i (leaving lease))
  Inv-commit =
      subst
        (λ (b : Outbox).
          Inv key b ((m.topic, lease.message_id) ∷ effects) (update worker i (leaving lease)))
        (sym after)
        (record {
          knows = commit-Knows;
          fenced = commit-Fenced;
          unique = λ j j' l l' n n' e e'.
              v.unique j j' l l' n n' (others j l n e).1 (others j' l' n' e').1;
          acknowledged = λ c id. or_mono _ _ _ (v.acknowledged c id);
          once = (first, v.once);
        })
