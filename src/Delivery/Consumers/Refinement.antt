-- ===== src/Delivery/Consumers/Refinement.antt =====
-- What the runs of the consumers lead to, whatever their order, and who may work on a resource.
use mathlib.Core.Path.{sym, ap, ◌∙◌}
use investment_backend.Base.{ℕ, ◌≡◌, true, false, some, [], lookup, arith}
use investment_backend.Delivery.Outbox.{Message, Execution, Delivery, marked}
use investment_backend.Delivery.Consumers.{ConsumerLease, is_mine, is_current}
use investment_backend.Delivery.Consumers.System.{
  idle, looked, working, leaving, World, Step, tick, publish, look, take, miss, beat, commit, abort,
  leave, crash, Reach, here, next,
}
use investment_backend.Delivery.Consumers.Effects.{
  take-Calm, take-Taken, renew-Calm, release-Calm, commit-Committed,
}
use investment_backend.Delivery.Consumers.Invariant.{NoRepeat, Inv, Inv-Calm, Inv-update}
use investment_backend.Delivery.Consumers.Keeps.{find-Home, Inv-publish, Inv-take}
use investment_backend.Delivery.Consumers.Commits.{Inv-commit}

-- No process is inside `consume` and no work has been committed.
pub record Initially (w : World) : Type 0 where
  pub nobody : (i : ℕ) → w.worker i ≡ idle
  pub nothing : w.effects ≡ []

module _ (resource_key : ℕ → ℕ → ℕ) (p : Delivery) where
  abbrev Holds : World → Type 0
  Holds w = Inv resource_key w.box w.effects w.worker

  Initially-Inv : (w : World) → Initially w → Holds w
  Initially-Inv w start = record {
    knows = λ i. rw (start.nobody i) tt;
    fenced = λ i l m e. let no : idle ≡ working l m = sym (start.nobody i) ∙ e in cc;
    unique = λ i j l l' m m' e. let no : idle ≡ working l m = sym (start.nobody i) ∙ e in cc;
    acknowledged = λ c id h. let no : false ≡ true = sym (ap (marked c id) start.nothing) ∙ h in cc;
    once = rw start.nothing tt;
  }

  pub Step-Inv : (w w' : World) → Step resource_key p w w' → Holds w → Holds w'
  Step-Inv w w' (tick n) v = v
  Step-Inv w w' (publish s keeps) v = Inv-publish resource_key w.effects w.box s w.worker keeps v
  Step-Inv w w' (look i id m found) v =
      Inv-update resource_key w.effects w.box w.worker i (looked id m)
        (find-Home p id w.clock m w.box found) (λ l n e. cc) v
  Step-Inv w w' (take i id owner m lease was got) v =
      Inv-take resource_key w.effects w.box _ w.worker i id w.clock m lease v
        (take-Calm resource_key p id owner w.clock m w.box)
        (take-Taken resource_key p id owner w.clock m w.box lease got) was
  Step-Inv w w' (miss i id owner m was got) v =
      Inv-update resource_key w.effects _ w.worker i idle tt (λ l n e. cc)
        (Inv-Calm resource_key w.effects w.box _ w.worker
          (take-Calm resource_key p id owner w.clock m w.box) v)
  Step-Inv w w' (beat i lease m was) v =
      Inv-Calm resource_key w.effects w.box _ w.worker (renew-Calm p lease w.clock w.box) v
  Step-Inv w w' (commit i lease m was done) v =
      Inv-commit resource_key w.effects w.box _ w.worker i m lease v was
        (commit-Committed lease m w.clock w.box done)
  Step-Inv w w' (abort i lease m was) v =
      Inv-update resource_key w.effects w.box w.worker i (leaving lease) tt (λ l n e. cc) v
  Step-Inv w w' (leave i lease was) v =
      Inv-update resource_key w.effects _ w.worker i idle tt (λ l n e. cc)
        (Inv-Calm resource_key w.effects w.box _ w.worker (release-Calm lease w.box) v)
  Step-Inv w w' (crash i) v =
      Inv-update resource_key w.effects w.box w.worker i idle tt (λ l n e. cc) v

  pub Reach-Inv : (s w : World) → Reach resource_key p s w → Holds s → Holds w
  Reach-Inv s w here v = v
  Reach-Inv s w (next {t} r step) v = Step-Inv t w step (Reach-Inv s t r v)

  -- In every state that is reached from a start where nobody is inside `consume` and nothing has been
  -- committed, however the processes, the clock and the publisher are interleaved and wherever
  -- processes die, no pair of a consumer and a message stands twice among the committed work, and each
  -- pair that stands there is in the inbox.
  pub once_and_acknowledged :
      (s w : World)
      → Initially s
      → Reach resource_key p s w
      → NoRepeat w.effects
        × ((c id : ℕ) → marked c id w.effects ≡ true → marked c id w.box.inbox ≡ true)
  once_and_acknowledged s w start r =
      let v = Reach-Inv s w r (Initially-Inv s start) in (v.once, v.acknowledged)

  current_epoch :
      (now : ℕ) (l : ConsumerLease) (row : Execution)
      → is_current now l (some row) ≡ true
      → row.epoch ≡ l.epoch
  unfolding is_current is_mine
  current_epoch now l row h = ground arith

  -- In every state that is reached from a start where nobody is inside `consume` and nothing has been
  -- committed, two processes at work whose leases are of one resource and both
  -- pass `CHECK_LEASE` are the same process.
  pub one_holder :
      (s w : World) (i j : ℕ) (l l' : ConsumerLease) (m m' : Message)
      → Initially s
      → Reach resource_key p s w
      → w.worker i ≡ working l m
      → w.worker j ≡ working l' m'
      → l.resource ≡ l'.resource
      → is_current w.clock l (lookup l.resource w.box.executions) ≡ true
      → is_current w.clock l' (lookup l'.resource w.box.executions) ≡ true
      → i ≡ j
  one_holder s w i j l l' m m' start r at_work at_work' resources current current' =
      let v = Reach-Inv s w r (Initially-Inv s start) in
      let f = v.fenced i l m at_work in
      let found' = ap (λ (k : ℕ). lookup k w.box.executions) (sym resources) ∙ f.found in
      let e = current_epoch w.clock l f.row (sym (ap (is_current w.clock l) f.found) ∙ current) in
      let e' =
        current_epoch w.clock l' f.row (sym (ap (is_current w.clock l') found') ∙ current') in
      v.unique i j l l' m m' at_work at_work' resources (sym e ∙ e')
