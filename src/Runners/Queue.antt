-- ===== src/Runners/Queue.antt =====
-- The tables `workbench_sandbox_leases` and `workbench_commands`, and the methods of
-- app/app/infrastructure/workbench/repository.py on them.
use investment_backend.Base.{
  ℕ, zero, suc, ◌+◌, ◌-◌, ◌*◌, Bool, true, false, not, ◌&&◌, ◌||◌, Option, none, some, List, [],
  ◌∷◌, ◌++◌, Dict, lookup, insert, ltb, leb, ◌==◌, if◌then◌else◌, is_some, any,
}

abbrev pub second : ℕ
second = 1000000

pub record Lease : Type 0 where
  pub runner : ℕ
  pub expires_at : ℕ
  pub acquired_at : ℕ

pub data CommandStatus : Type 0 where
  pending : CommandStatus
  claimed : CommandStatus
  done : CommandStatus
  failed : CommandStatus

abbrev pub is_pending : CommandStatus → Bool
is_pending pending = true
is_pending _ = false

abbrev pub is_claimed : CommandStatus → Bool
is_claimed claimed = true
is_claimed _ = false

pub record QueuedCommand : Type 0 where
  pub sandbox_id : ℕ
  pub status : CommandStatus
  pub claimed_by : Option ℕ
  pub claimed_at : Option ℕ
  pub error : Option ℕ

pub record Queue : Type 0 where
  pub leases : Dict Lease
  pub commands : Dict QueuedCommand

-- `enqueue_command`; the key of the row is new.
unfoldable pub enqueue : ℕ → ℕ → Queue → Queue
enqueue id sandbox q = record q {
  commands = elim (lookup id q.commands) [
    | some _ ↦ q.commands
    | none ↦
        q.commands
        ++ ((
          id,
          record {
            sandbox_id = sandbox;
            status = pending;
            claimed_by = none;
            claimed_at = none;
            error = none;
          },
        )
            ∷ [])
  ];
}

abbrev pub has_id : ℕ → List ℕ → Bool
has_id id ids = any (λ i. i == id) ids

-- `wanted` of `acquire_leases`: the sandboxes of pending commands, each once
abbrev pub wanted : Dict QueuedCommand → List ℕ
wanted [] = []
wanted ((id, c) ∷ rest) =
    let others = wanted rest in
    if is_pending c.status && not (has_id c.sandbox_id others)
    then c.sandbox_id ∷ others
    else others

-- The row that the `insert … on conflict` of `acquire_leases` writes, if it writes one
unfoldable pub acquired : ℕ → ℕ → ℕ → Option Lease → Option Lease
acquired runner ttl now none =
    some (record { runner = runner; expires_at = now + ttl * second; acquired_at = now })
acquired runner ttl now (some l) =
    if l.runner == runner || ltb l.expires_at now
    then some (record {
      runner = runner;
      expires_at = now + ttl * second;
      acquired_at = if l.runner == runner then l.acquired_at else now;
    })
    else none

-- The row was inserted, or is not older than a second.
unfoldable pub is_fresh : ℕ → Option Lease → Lease → Bool
is_fresh now none row = true
is_fresh now (some _) row = ltb (now - row.acquired_at) second

-- `acquire_leases`, sandbox by sandbox: the leases that are fresh
unfoldable pub acquire_all : ℕ → ℕ → ℕ → List ℕ → Dict Lease → List ℕ × Dict Lease
unfolding acquired is_fresh
acquire_all runner ttl now [] leases = ([], leases)
acquire_all runner ttl now (sandbox ∷ sandboxes) leases =
    let kept = acquire_all runner ttl now sandboxes leases in
    elim (acquired runner ttl now (lookup sandbox leases)) [
      | none ↦ kept
      | some row ↦ (
        (if is_fresh now (lookup sandbox leases) row then sandbox ∷ kept.0 else kept.0),
        insert sandbox row kept.1,
      )
    ]

unfoldable pub acquire_leases : ℕ → ℕ → ℕ → Queue → List ℕ × Queue
unfolding acquire_all
acquire_leases runner ttl now q =
    let taken = acquire_all runner ttl now (wanted q.commands) q.leases in
    (taken.0, record q { leases = taken.1 })

-- `sandbox_held`
unfoldable pub sandbox_held : ℕ → ℕ → Queue → Bool
sandbox_held sandbox now q = elim (lookup sandbox q.leases) [
  | none ↦ false
  | some l ↦ ltb now l.expires_at
]

abbrev pub map_rows : {V : Type 0} → (V → V) → Dict V → Dict V
map_rows f [] = []
map_rows f ((id, v) ∷ rest) = (id, f v) ∷ map_rows f rest

-- The row after `renew_leases` and after `release_leases`
unfoldable pub renewed : ℕ → ℕ → ℕ → Lease → Lease
renewed runner ttl now l =
    if l.runner == runner && leb now l.expires_at
    then record l { expires_at = now + ttl * second }
    else l

unfoldable pub let_go : ℕ → ℕ → Lease → Lease
let_go runner now l = if l.runner == runner then record l { expires_at = now } else l

abbrev pub held_by : ℕ → ℕ → Dict Lease → List ℕ
held_by runner now [] = []
held_by runner now ((id, l) ∷ rest) =
    let others = held_by runner now rest in
    if l.runner == runner && leb now l.expires_at then id ∷ others else others

-- `renew_leases`: the sandboxes that are still the runner's
unfoldable pub renew_leases : ℕ → ℕ → ℕ → Queue → List ℕ × Queue
unfolding renewed
renew_leases runner ttl now q =
    (held_by runner now q.leases, record q { leases = map_rows (renewed runner ttl now) q.leases })

-- `release_leases`
unfoldable pub release_leases : ℕ → ℕ → Queue → Queue
unfolding let_go
release_leases runner now q = record q { leases = map_rows (let_go runner now) q.leases }

-- `c.status = 'pending' and l.runner_id = :by and l.expires_at > now()`
unfoldable pub can_claim : ℕ → ℕ → Dict Lease → QueuedCommand → Bool
can_claim by now leases c = is_pending c.status && elim (lookup c.sandbox_id leases) [
  | none ↦ false
  | some l ↦ l.runner == by && ltb now l.expires_at
]

abbrev pub taken_by : ℕ → ℕ → QueuedCommand → QueuedCommand
taken_by by now c = record c { status = claimed; claimed_by = some by; claimed_at = some now }

-- `claim_commands`: the rows that are returned and the table after it
unfoldable pub claim_rows :
    ℕ → ℕ → Dict Lease → ℕ → Dict QueuedCommand → Dict QueuedCommand × Dict QueuedCommand
unfolding can_claim
claim_rows by now leases limit [] = ([], [])
claim_rows by now leases zero ((id, c) ∷ rest) = ([], (id, c) ∷ rest)
claim_rows by now leases (suc limit) ((id, c) ∷ rest) =
    let after_it = claim_rows by now leases limit rest in
    let without_it = claim_rows by now leases (suc limit) rest in
    if can_claim by now leases c
    then ((id, taken_by by now c) ∷ after_it.0, (id, taken_by by now c) ∷ after_it.1)
    else (without_it.0, (id, c) ∷ without_it.1)

unfoldable pub claim_commands : ℕ → ℕ → ℕ → Queue → Dict QueuedCommand × Queue
unfolding claim_rows
claim_commands by limit now q =
    let rows = claim_rows by now q.leases limit q.commands in
    (rows.0, record q { commands = rows.1 })

-- The row after `finish_command`
unfoldable pub finished : Option ℕ → QueuedCommand → QueuedCommand
finished error c = record c { status = if is_some error then failed else done; error = error }

abbrev pub map_row : {V : Type 0} → ℕ → (V → V) → Dict V → Dict V
map_row id f [] = []
map_row id f ((j, v) ∷ rest) = (j, if id == j then f v else v) ∷ map_row id f rest

-- `finish_command`
unfoldable pub finish_command : ℕ → Option ℕ → Queue → Queue
unfolding finished
finish_command id error q = record q { commands = map_row id (finished error) q.commands }

-- The condition and the effect of `requeue_stale_commands`
unfoldable pub is_stale : ℕ → ℕ → QueuedCommand → Bool
is_stale older now c =
    is_claimed c.status
    && elim c.claimed_at [ none ↦ false | some at ↦ ltb (at + older * second) now ]

unfoldable pub requeued : ℕ → ℕ → QueuedCommand → QueuedCommand
unfolding is_stale
requeued older now c =
    if is_stale older now c
    then record c { status = pending; claimed_by = none; claimed_at = none }
    else c

abbrev pub count_stale : ℕ → ℕ → Dict QueuedCommand → ℕ
count_stale older now [] = 0
count_stale older now ((id, c) ∷ rest) =
    let others = count_stale older now rest in if is_stale older now c then others + 1 else others

-- `requeue_stale_commands`
unfoldable pub requeue_stale_commands : ℕ → ℕ → Queue → ℕ × Queue
unfolding requeued
requeue_stale_commands older now q = (
  count_stale older now q.commands,
  record q { commands = map_rows (requeued older now) q.commands },
)
