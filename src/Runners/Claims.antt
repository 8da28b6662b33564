-- ===== src/Runners/Claims.antt =====
-- Who works on a command (app/app/infrastructure/workbench/repository.py).
use investment_backend.Base.{
  ℕ, zero, suc, ◌+◌, ◌*◌, ◌≤◌, ◌≡◌, refl, sym, ap, subst, ◌∙◌, true, false, Option, none, some,
  some-injective, List, [], ◌∷◌, ◌++◌, Dict, lookup, lookup-insert, ltb, ◌==◌, ==_iff,
  if◌then◌else◌, Bool-cases, ◌⊎◌, inl, inr, arith,
}
use investment_backend.Runners.Queue.{
  second, Lease, QueuedCommand, Queue, is_pending, enqueue, acquired, acquire_all, acquire_leases,
  wanted, map_rows, map_row, renew_leases, release_leases, can_claim, taken_by, claim_rows,
  claim_commands, finished, finish_command, is_stale, requeued, requeue_stale_commands,
}

-- One transaction of a runner or of the ledger
pub data Operation : Type 0 where
  enqueues : ℕ → ℕ → Operation
  acquires : ℕ → ℕ → ℕ → Operation
  renews : ℕ → ℕ → ℕ → Operation
  releases : ℕ → ℕ → Operation
  claims : ℕ → ℕ → ℕ → Operation
  finishes : ℕ → Option ℕ → Operation
  requeues : ℕ → ℕ → Operation

unfoldable pub apply : Operation → Queue → Queue
unfolding enqueue acquire_leases renew_leases release_leases claim_commands finish_command
    requeue_stale_commands
apply (enqueues id sandbox) q = enqueue id sandbox q
apply (acquires runner ttl now) q = (acquire_leases runner ttl now q).1
apply (renews runner ttl now) q = (renew_leases runner ttl now q).1
apply (releases runner now) q = release_leases runner now q
apply (claims by limit now) q = (claim_commands by limit now q).1
apply (finishes id error) q = finish_command id error q
apply (requeues older now) q = (requeue_stale_commands older now q).1

abbrev pub apply_all : List Operation → Queue → Queue
apply_all [] q = q
apply_all (o ∷ rest) q = apply_all rest (apply o q)

-- No `requeue_stale_commands` of the list finds a claim of the time `at` stale.
abbrev pub AreEarly : ℕ → List Operation → Type 0
AreEarly at [] = Unit {0}
AreEarly at (requeues older now ∷ rest) = (now ≤ at + older * second) × AreEarly at rest
AreEarly at (_ ∷ rest) = AreEarly at rest

-- The command was claimed by `by` at the time `at`, and nobody has taken it away.
pub record IsTaken (by : Option ℕ) (at : ℕ) (c : QueuedCommand) : Type 0 where
  pub not_pending : is_pending c.status ≡ false
  pub taker : c.claimed_by ≡ by
  pub since : c.claimed_at ≡ some at

abbrev pub StaysTaken : ℕ → Option ℕ → ℕ → Dict QueuedCommand → Type 0
StaysTaken id by at rows = (c : QueuedCommand) × (lookup id rows ≡ some c) × IsTaken by at c

module _ (id : ℕ) (by : Option ℕ) (at : ℕ) where
  -- A row other than the first is looked for behind it.
  below :
      (j : ℕ) (v w : QueuedCommand) (rest rest' : Dict QueuedCommand)
      → (IsTaken by at v → IsTaken by at w)
      → (StaysTaken id by at rest → StaysTaken id by at rest')
      → StaysTaken id by at ((j, v) ∷ rest)
      → StaysTaken id by at ((j, w) ∷ rest')
  below j v w rest rest' here there (c, found, taken) = elim (Bool-cases (id == j)) [
    | inl same ↦
        let first : lookup id ((j, v) ∷ rest) ≡ some v = rw same refl in
        let row : v ≡ c = some-injective v c (sym first ∙ found) in
        (w, rw same refl, here (subst (IsTaken by at) (sym row) taken))
    | inr other ↦
        let later : lookup id ((j, v) ∷ rest) ≡ lookup id rest = rw other refl in
        let (c', found', taken') = there (c, sym later ∙ found, taken) in
        (c', rw other found', taken')
  ]

  map_rows-StaysTaken :
      (f : QueuedCommand → QueuedCommand)
      → ((c : QueuedCommand) → IsTaken by at c → IsTaken by at (f c))
      → (rows : Dict QueuedCommand) → StaysTaken id by at rows
      → StaysTaken id by at (map_rows f rows)
  map_rows-StaysTaken f keeps [] h = h
  map_rows-StaysTaken f keeps ((j, v) ∷ rest) h =
      below j v (f v) rest (map_rows f rest) (keeps v) (map_rows-StaysTaken f keeps rest) h

  map_row-StaysTaken :
      (k : ℕ) (f : QueuedCommand → QueuedCommand)
      → ((c : QueuedCommand) → IsTaken by at c → IsTaken by at (f c))
      → (rows : Dict QueuedCommand) → StaysTaken id by at rows
      → StaysTaken id by at (map_row k f rows)
  map_row-StaysTaken k f keeps [] h = h
  map_row-StaysTaken k f keeps ((j, v) ∷ rest) h =
      below j v (if k == j then f v else v) rest (map_row k f rest)
        (λ t. elim (Bool-cases (k == j)) [
          | inl same ↦ rw same (keeps v t)
          | inr other ↦ rw other t
        ])
        (map_row-StaysTaken k f keeps rest) h

  finished-IsTaken :
      (error : Option ℕ) (c : QueuedCommand) → IsTaken by at c → IsTaken by at (finished error c)
  unfolding finished
  finished-IsTaken none c t = record { not_pending = refl; taker = t.taker; since = t.since }
  finished-IsTaken (some e) c t = record { not_pending = refl; taker = t.taker; since = t.since }

  requeued-IsTaken :
      (older now : ℕ) (c : QueuedCommand)
      → now ≤ at + older * second
      → IsTaken by at c
      → IsTaken by at (requeued older now c)
  unfolding requeued is_stale
  requeued-IsTaken older now c early t =
      let since = t.since in
      let fresh : is_stale older now c ≡ false = rw since (ground arith) in rw fresh t

  not_claimed :
      (who now : ℕ) (leases : Dict Lease) (c : QueuedCommand)
      → is_pending c.status ≡ false
      → can_claim who now leases c ≡ false
  unfolding can_claim
  not_claimed who now leases c busy = rw busy refl

  -- A command that is not pending is not claimed.
  claim_rows-StaysTaken :
      (who now : ℕ) (leases : Dict Lease) (limit : ℕ) (rows : Dict QueuedCommand)
      → StaysTaken id by at rows
      → StaysTaken id by at (claim_rows who now leases limit rows).1
  unfolding claim_rows
  claim_rows-StaysTaken who now leases limit [] h = h
  claim_rows-StaysTaken who now leases zero ((j, v) ∷ rest) h = h
  claim_rows-StaysTaken who now leases (suc limit) ((j, v) ∷ rest) h =
      elim (Bool-cases (can_claim who now leases v)) [
        | inl can ↦ rw can (
            below j v (taken_by who now v) rest (claim_rows who now leases limit rest).1
              (λ t. let busy = not_claimed who now leases v t.not_pending in cc)
              (claim_rows-StaysTaken who now leases limit rest) h)
        | inr cannot ↦ rw cannot (
            below j v v rest (claim_rows who now leases (suc limit) rest).1 (λ t. t)
              (claim_rows-StaysTaken who now leases (suc limit) rest) h)
      ]

  enqueue-StaysTaken :
      (k sandbox : ℕ) (q : Queue)
      → StaysTaken id by at q.commands
      → StaysTaken id by at (enqueue k sandbox q).commands
  unfolding enqueue
  enqueue-StaysTaken k sandbox q h = by_row (lookup k q.commands) refl
    where
      behind :
          (rows more : Dict QueuedCommand)
          → StaysTaken id by at rows
          → StaysTaken id by at (rows ++ more)
      behind [] more (c, found, taken) = cc
      behind ((j, v) ∷ rest) more h' =
          below j v v rest (rest ++ more) (λ t. t) (behind rest more) h'

      by_row :
          (o : Option QueuedCommand)
          → lookup k q.commands ≡ o
          → StaysTaken id by at (enqueue k sandbox q).commands
      by_row none e = rw (e, enqueue) (behind q.commands _ h)
      by_row (some c) e = rw (e, enqueue) h

  apply-StaysTaken :
      (o : Operation) (q : Queue)
      → AreEarly at (o ∷ [])
      → StaysTaken id by at q.commands
      → StaysTaken id by at (apply o q).commands
  unfolding apply
  apply-StaysTaken (enqueues k sandbox) q early h = enqueue-StaysTaken k sandbox q h
  apply-StaysTaken (acquires runner ttl now) q early h = h
  apply-StaysTaken (renews runner ttl now) q early h = h
  apply-StaysTaken (releases runner now) q early h = h
  apply-StaysTaken (claims who limit now) q early h =
      claim_rows-StaysTaken who now q.leases limit q.commands h
  apply-StaysTaken (finishes k error) q early h =
      map_row-StaysTaken k (finished error) (finished-IsTaken error) q.commands h
  apply-StaysTaken (requeues older now) q early h =
      map_rows-StaysTaken (requeued older now) (λ c. requeued-IsTaken older now c early.0)
        q.commands h

-- A command that a runner has claimed stays that runner's: as long as no `requeue_stale_commands`
-- finds the claim stale, whatever runners and the ledger do, in any order, the row is there, was taken
-- by the same runner at the same time, and is not pending, so that nobody else claims it.
pub claimed_once :
    (operations : List Operation) (id : ℕ) (by : Option ℕ) (at : ℕ) (q : Queue)
    → StaysTaken id by at q.commands
    → AreEarly at operations
    → StaysTaken id by at (apply_all operations q).commands
claimed_once [] id by at q h early = h
claimed_once (enqueues k sandbox ∷ rest) id by at q h early =
    claimed_once rest id by at _ (apply-StaysTaken id by at (enqueues k sandbox) q tt h) early
claimed_once (acquires runner ttl now ∷ rest) id by at q h early =
    claimed_once rest id by at _ (apply-StaysTaken id by at (acquires runner ttl now) q tt h) early
claimed_once (renews runner ttl now ∷ rest) id by at q h early =
    claimed_once rest id by at _ (apply-StaysTaken id by at (renews runner ttl now) q tt h) early
claimed_once (releases runner now ∷ rest) id by at q h early =
    claimed_once rest id by at _ (apply-StaysTaken id by at (releases runner now) q tt h) early
claimed_once (claims who limit now ∷ rest) id by at q h early =
    claimed_once rest id by at _ (apply-StaysTaken id by at (claims who limit now) q tt h) early
claimed_once (finishes k error ∷ rest) id by at q h early =
    claimed_once rest id by at _ (apply-StaysTaken id by at (finishes k error) q tt h) early
claimed_once (requeues older now ∷ rest) id by at q h early =
    claimed_once rest id by at _ (apply-StaysTaken id by at (requeues older now) q (early.0, tt) h)
      early.1

-- The leases
acquired_held :
    (runner ttl now : ℕ) (l : Lease)
    → (l.runner == runner) ≡ false
    → now ≤ l.expires_at
    → acquired runner ttl now (some l) ≡ none
unfolding acquired
acquired_held runner ttl now l other live =
    let late : ltb l.expires_at now ≡ false = ground arith in rw other (rw late refl)

acquire_all_keeps :
    (runner ttl now sandbox : ℕ) (l : Lease) (sandboxes : List ℕ) (leases : Dict Lease)
    → lookup sandbox leases ≡ some l
    → (l.runner == runner) ≡ false
    → now ≤ l.expires_at
    → lookup sandbox (acquire_all runner ttl now sandboxes leases).1 ≡ some l
unfolding acquire_all
acquire_all_keeps runner ttl now sandbox l [] leases found other live = found
acquire_all_keeps runner ttl now sandbox l (x ∷ rest) leases found other live =
    by_row (acquired runner ttl now (lookup x leases)) refl
      (acquire_all_keeps runner ttl now sandbox l rest leases found other live)
  where
    by_row :
        (o : Option Lease)
        → acquired runner ttl now (lookup x leases) ≡ o
        → lookup sandbox (acquire_all runner ttl now rest leases).1 ≡ some l
        → lookup sandbox (acquire_all runner ttl now (x ∷ rest) leases).1 ≡ some l
    by_row none e later = rw (e, acquire_all) later
    by_row (some row) e later = elim (Bool-cases (sandbox == x)) [
      | inl same ↦
          let here = ap (λ (k : ℕ). lookup k leases) (sym ((==_iff sandbox x).0 same)) ∙ found in
          let held = acquired_held runner ttl now l other live in cc
      | inr apart ↦
          rw (e, acquire_all)
            (lookup-insert sandbox x row (acquire_all runner ttl now rest leases).1
              ∙ rw apart later)
    ]

-- No row of the answer is of the sandbox.
abbrev pub AvoidsSandbox : ℕ → Dict QueuedCommand → Type 0
AvoidsSandbox sandbox [] = Unit {0}
AvoidsSandbox sandbox ((id, c) ∷ rest) =
    ((c.sandbox_id == sandbox) ≡ false) × AvoidsSandbox sandbox rest

held_elsewhere :
    (by now : ℕ) (leases : Dict Lease) (c : QueuedCommand) (l : Lease)
    → lookup c.sandbox_id leases ≡ some l
    → (l.runner == by) ≡ false
    → can_claim by now leases c ≡ false
unfolding can_claim
held_elsewhere by now leases c l found other = rw found (rw other (ground arith))

claim_rows-AvoidsSandbox :
    (by now sandbox : ℕ) (l : Lease) (leases : Dict Lease) (limit : ℕ) (rows : Dict QueuedCommand)
    → lookup sandbox leases ≡ some l
    → (l.runner == by) ≡ false
    → AvoidsSandbox sandbox (claim_rows by now leases limit rows).0
unfolding claim_rows
claim_rows-AvoidsSandbox by now sandbox l leases limit [] found other = tt
claim_rows-AvoidsSandbox by now sandbox l leases zero ((j, v) ∷ rest) found other = tt
claim_rows-AvoidsSandbox by now sandbox l leases (suc limit) ((j, v) ∷ rest) found other =
    elim (Bool-cases (can_claim by now leases v)) [
      | inl can ↦ rw can (
        apart v can (Bool-cases (v.sandbox_id == sandbox)),
        claim_rows-AvoidsSandbox by now sandbox l leases limit rest found other,
      )
      | inr cannot ↦
          rw cannot (claim_rows-AvoidsSandbox by now sandbox l leases (suc limit) rest found other)
    ]
  where
    apart :
        (c : QueuedCommand)
        → can_claim by now leases c ≡ true
        → ((c.sandbox_id == sandbox) ≡ true) ⊎ ((c.sandbox_id == sandbox) ≡ false)
        → (c.sandbox_id == sandbox) ≡ false
    apart c can (inr no_match) = no_match
    apart c can (inl same) =
        let there =
          ap (λ (k : ℕ). lookup k leases) ((==_iff c.sandbox_id sandbox).0 same) ∙ found in
        cc (held_elsewhere by now leases c l there other)

-- While a runner holds the lease of a sandbox, no other runner gets a command of that sandbox, neither
-- at once nor later: its `acquire_leases` leaves the lease alone, and its `claim_commands` after it,
-- at any time and with any limit, answers with commands of other sandboxes only.
pub one_runner :
    (runner ttl now later limit sandbox : ℕ) (l : Lease) (q : Queue)
    → lookup sandbox q.leases ≡ some l
    → (l.runner == runner) ≡ false
    → now ≤ l.expires_at
    → (lookup sandbox (acquire_leases runner ttl now q).1.leases ≡ some l)
      × AvoidsSandbox sandbox
          (claim_commands runner limit later (acquire_leases runner ttl now q).1).0
unfolding acquire_leases claim_commands
one_runner runner ttl now later limit sandbox l q found other live =
    let kept =
      acquire_all_keeps runner ttl now sandbox l (wanted q.commands) q.leases found other live in
    (
      kept,
      claim_rows-AvoidsSandbox runner later sandbox l
          (acquire_all runner ttl now (wanted q.commands) q.leases).1 limit q.commands kept other,
    )
