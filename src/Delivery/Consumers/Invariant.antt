-- ===== src/Delivery/Consumers/Invariant.antt =====
-- What holds of the consumers at every moment.
use mathlib.Core.Path.{sym, ap, ◌∙◌}
use investment_backend.Base.{
  ℕ, ◌≤◌, ◌≡◌, ◌≢◌, Bool, true, false, some, List, [], ◌∷◌, lookup, ◌==◌, if◌then◌else◌, Bool-cases,
  inl, inr, arith,
}
use investment_backend.Delivery.Outbox.{Message, Execution, Outbox, marked}
use investment_backend.Delivery.Consumers.{ConsumerLease}
use investment_backend.Delivery.Consumers.System.{
  Phase, idle, looked, working, leaving, update, Home,
}
use investment_backend.Delivery.Consumers.Effects.{Calm}

-- No pair stands twice in the list.
abbrev pub NoRepeat : List (ℕ × ℕ) → Type 0
NoRepeat [] = Unit {0}
NoRepeat ((c, m) ∷ rest) = (marked c m rest ≡ false) × NoRepeat rest

-- What a process knows of the message it works on
abbrev pub Knows : (ℕ → ℕ → ℕ) → Outbox → Phase → Type 0
Knows key s idle = Unit {0}
Knows key s (looked id m) = Home s id m
Knows key s (working l m) = Home s l.message_id m × (l.resource ≡ key m.topic m.aggregate_key)
Knows key s (leaving l) = Unit {0}

-- The row of the lease is no older than the lease, and while it is of the lease's epoch the message
-- has not been acknowledged.
pub record Fenced (s : Outbox) (l : ConsumerLease) (m : Message) : Type 0 where
  pub row : Execution
  pub found : lookup l.resource s.executions ≡ some row
  pub old : l.epoch ≤ row.epoch
  pub open_yet : row.epoch ≡ l.epoch → marked m.topic l.message_id s.inbox ≡ false

pub record Inv (key : ℕ → ℕ → ℕ) (box : Outbox) (effects : List (ℕ × ℕ)) (worker : ℕ → Phase)
    : Type 0 where
  pub knows : (i : ℕ) → Knows key box (worker i)
  pub fenced : (i : ℕ) (l : ConsumerLease) (m : Message) → worker i ≡ working l m → Fenced box l m
  pub unique :
      (i j : ℕ) (l l' : ConsumerLease) (m m' : Message)
      → worker i ≡ working l m
      → worker j ≡ working l' m'
      → l.resource ≡ l'.resource
      → l.epoch ≡ l'.epoch
      → i ≡ j
  pub acknowledged : (c id : ℕ) → marked c id effects ≡ true → marked c id box.inbox ≡ true
  pub once : NoRepeat effects

pub Home-messages :
    (s s' : Outbox) (id : ℕ) (m : Message) → s'.messages ≡ s.messages → Home s id m → Home s' id m
Home-messages s s' id m e h = record {
  row = h.row;
  found = ap (λ (d : _). lookup id d) e ∙ h.found;
  topic = h.topic;
  key = h.key;
}

pub Knows-messages :
    (key : ℕ → ℕ → ℕ) (s s' : Outbox) (x : Phase)
    → ((id : ℕ) (m : Message) → Home s id m → Home s' id m)
    → Knows key s x
    → Knows key s' x
Knows-messages key s s' idle f k = tt
Knows-messages key s s' (looked id m) f k = f id m k
Knows-messages key s s' (working l m) f k = (f l.message_id m k.0, k.1)
Knows-messages key s s' (leaving l) f k = tt

pub Fenced-Calm :
    (s s' : Outbox) (l : ConsumerLease) (m : Message) → Calm s s' → Fenced s l m → Fenced s' l m
Fenced-Calm s s' l m c f =
    let (e', h', le) = c.grown l.resource f.row f.found in
    record {
      row = e';
      found = h';
      old = (let o = f.old in omega arith);
      open_yet = λ same.
          let o = f.old in
          let epochs : f.row.epoch ≡ l.epoch = omega arith in rw c.inbox_same (f.open_yet epochs);
    }

module _ (key : ℕ → ℕ → ℕ) (effects : List (ℕ × ℕ)) where
  -- A step that is calm, with the processes where they were.
  pub Inv-Calm :
      (s s' : Outbox) (worker : ℕ → Phase)
      → Calm s s'
      → Inv key s effects worker
      → Inv key s' effects worker
  Inv-Calm s s' worker c v = record {
    knows = λ i.
        Knows-messages key s s' (worker i) (λ id m. Home-messages s s' id m c.messages_same)
          (v.knows i);
    fenced = λ i l m e. Fenced-Calm s s' l m c (v.fenced i l m e);
    unique = v.unique;
    acknowledged = λ t id h. rw c.inbox_same (v.acknowledged t id h);
    once = v.once;
  }

  -- A process that is not at work after the step.
  pub Inv-update :
      (s : Outbox) (worker : ℕ → Phase) (i : ℕ) (x : Phase)
      → Knows key s x
      → ((l : ConsumerLease) (m : Message) → x ≢ working l m)
      → Inv key s effects worker
      → Inv key s effects (update worker i x)
  Inv-update s worker i x k quiet v = record {
    knows =
        λ j. elim (Bool-cases (i == j)) [ inl same ↦ rw same k | inr other ↦ rw other (v.knows j) ];
    fenced = λ j l m e. v.fenced j l m (was j l m e);
    unique = λ j j' l l' m m' e e'. v.unique j j' l l' m m' (was j l m e) (was j' l' m' e');
    acknowledged = v.acknowledged;
    once = v.once;
  }
    where
      was :
          (j : ℕ) (l : ConsumerLease) (m : Message)
          → update worker i x j ≡ working l m
          → worker j ≡ working l m
      was j l m e = elim (Bool-cases (i == j)) [
        | inl same ↦
            absurd (quiet l m (sym (ap (λ (b : Bool). if b then x else worker j) same) ∙ e))
        | inr other ↦ sym (ap (λ (b : Bool). if b then x else worker j) other) ∙ e
      ]
