-- ===== src/Ledger/Repeats.antt =====
-- A second call of a method of app/app/application/workbench/ledger.py after a first one that
-- returned: `handover` with the same idempotency key, and `transition` with the same version.
use mathlib.Core.Path.{sym, ap, ◌∙◌, subst}
use investment_backend.Base.{
  ℕ, ◌≡◌, ◌≢◌, ◌⊎◌, refl, true, false, Option, none, some, lookup, insert, find_first,
  find_first-insert, Bool-cases, inl, inr, ◌==◌, ==_iff, Dict, if◌then◌else◌,
}
use investment_backend.Base.Exec.{Result, ok, err, pure, transaction, ◌>>=◌, ◌>>◌}
use investment_backend.Base.Exec.Respects.{Respects, >>=-eq-ok, transaction-eq-ok}
use investment_backend.States.{TaskState, received}
use investment_backend.Store.{
  Store, Action, Task, Fault, Pack, Profile, builtin, knowbot, Session, idempotency_conflict,
  is_repeat, same_profile, insert_task, put_task, breaks_index, integrity_error, project_busy,
}
use investment_backend.Store.Frame.{OnTasks, task_rules}
use investment_backend.Store.Evolves.{tasks_of, Unmoved, Unmoved-preorder}
use investment_backend.Ledger.Intake.{
  HandoverRequest, Receipt, handover, create_task, new_task, start_task, pack_of_request,
  mark_expert, pinned_pack,
}
use investment_backend.Ledger.Moves.{give_wheel}

pub ruleset still_rules = (task_rules, Unmoved-preorder)

pub start_task-still :
    (req : HandoverRequest) (owner : ℕ) (session : Session) (id : ℕ) (behind : Option ℕ)
    → Respects (OnTasks Unmoved) (start_task req owner session id behind)
unfolding start_task mark_expert give_wheel
start_task-still req owner session id behind = search still_rules depth 40

pub pack_of_request-still :
    (given : Option Pack) (owner : ℕ) (profile : Profile)
    → Respects (OnTasks Unmoved) (pack_of_request given owner profile)
unfolding pack_of_request pinned_pack
pack_of_request-still (some pack) owner (builtin k) = search still_rules depth 30
pack_of_request-still (some pack) owner (knowbot k) = search still_rules depth 30
pack_of_request-still none owner (builtin k) = search still_rules depth 30
pack_of_request-still none owner (knowbot k) = search still_rules depth 30

pub ruleset intake_rules = (still_rules, start_task-still, pack_of_request-still)

-- Whatever the block returns has the property.
abbrev pub Ends : {A : Type 0} → (A → Store → Type 0) → Action A → Store → Type 0
Ends {A} P m s = (a : A) (u : Store) → m s ≡ (ok a, u) → P a u

pub quietly :
    {A B : Type 0} (P : B → Store → Type 0) (m : Action A) (f : A → Action B) (d : Dict Task)
    (s : Store)
    → s.tasks ≡ d
    → Respects (OnTasks Unmoved) m
    → ((a : A) (u : Store) → u.tasks ≡ d → Ends P (f a) u)
    → Ends P (m >>= f) s
quietly P m f d s same calm rest b u h =
    let (a, t, e, g) = >>=-eq-ok m f s h in rest a t (tasks_of m s calm e ∙ same) b u g

pub inserted :
    (id : ℕ) (t : Task) (s : Store) {x : Unit {0}} {u : Store}
    → insert_task id t s ≡ (ok x, u)
    → (lookup id s.tasks ≡ none) × (u.tasks ≡ insert id t s.tasks)
unfolding insert_task ◌>>=◌ put_task
inserted id t s {x} {u} h = by_row (lookup id s.tasks) refl
  where
    by_row :
        (o : Option Task)
        → lookup id s.tasks ≡ o
        → (lookup id s.tasks ≡ none) × (u.tasks ≡ insert id t s.tasks)
    by_row (some row) e = let no : insert_task id t s ≡ (err integrity_error, s) = rw e refl in cc
    by_row none e = elim (Bool-cases (breaks_index id t s.tasks)) [
      | inl clash ↦ let no : insert_task id t s ≡ (err project_busy, s) = rw e (rw clash refl) in cc
      | inr room ↦
          let done : insert_task id t s ≡ (ok tt, record s { tasks = insert id t s.tasks }) =
            rw e (rw room refl) in
          (e, ap (λ (r : Result Fault Unit × Store). r.1.tasks) (sym h ∙ done))
    ]

==_self : (n : ℕ) → (n == n) ≡ true
==_self n = (==_iff n n).1 refl

same_profile_self : (p : Profile) → same_profile p p ≡ true
same_profile_self (builtin k) = ==_self k
same_profile_self (knowbot k) = ==_self k

new_task-is_repeat :
    (req : HandoverRequest) (owner tenant version : ℕ) (behind : Option ℕ) (pinned : Option Pack)
    (project : ℕ) (session : Session)
    → is_repeat tenant owner req.profile_id req.idempotency_key
        (new_task req owner tenant version behind pinned project session)
      ≡ true
unfolding is_repeat new_task
new_task-is_repeat req owner tenant version behind pinned project session =
    let t = ==_self tenant in
    let o = ==_self owner in
    let p = same_profile_self req.profile_id in
    let k = ==_self req.idempotency_key in rw t (rw o (rw p k))

-- The first row with the key of the request is the one of the answer, with the request's digest.
abbrev Recorded : HandoverRequest → ℕ → ℕ → Receipt → Store → Type 0
Recorded req owner tenant r u =
    (t : Task) × (find_first (is_repeat tenant owner req.profile_id req.idempotency_key) u.tasks
      ≡ some (r.task_id, t))
    × (t.request_digest ≡ req.digest)
    × (t.state ≡ r.state)

pure-Recorded :
    (req : HandoverRequest) (owner tenant version id : ℕ) (behind : Option ℕ) (pinned : Option Pack)
    (project : ℕ) (session : Session) (d : Dict Task) (s : Store)
    → find_first (is_repeat tenant owner req.profile_id req.idempotency_key) d ≡ none
    → lookup id d ≡ none
    → s.tasks ≡ insert id (new_task req owner tenant version behind pinned project session) d
    → Ends
        (Recorded req owner tenant)
        (pure (record { task_id = id; state = received; created = true; queued_behind = behind }))
        s
unfolding ◌>>=◌ new_task
pure-Recorded req owner tenant version id behind pinned project session d s missing fresh written r
      v h =
    let t = new_task req owner tenant version behind pinned project session in
    let answer : Receipt = record {
      task_id = id;
      state = received;
      created = true;
      queued_behind = behind;
    } in
    let returned : Path (Result Fault Receipt) (ok answer) (ok r) =
      ap (λ (x : Result Fault Receipt × Store). x.0) h in
    let same : answer ≡ r = cc in
    let last : s ≡ v = ap (λ (x : Result Fault Receipt × Store). x.1) h in
    let p = is_repeat tenant owner req.profile_id req.idempotency_key in
    subst (λ (x : Receipt). Recorded req owner tenant x v) same
      (
        t,
        ap (λ (x : Store). find_first p x.tasks) (sym last)
            ∙ ap (find_first p) written
            ∙ find_first-insert p id t d fresh missing
                (new_task-is_repeat req owner tenant version behind pinned project session),
        refl,
        refl,
      )

-- The last three parts of `create_task`
insert_then-Recorded :
    (req : HandoverRequest) (owner tenant version id : ℕ) (behind : Option ℕ) (pinned : Option Pack)
    (project : ℕ) (session : Session) (d : Dict Task) (s : Store)
    → find_first (is_repeat tenant owner req.profile_id req.idempotency_key) d ≡ none
    → s.tasks ≡ d
    → Ends
        (Recorded req owner tenant)
        (do
          insert_task id (new_task req owner tenant version behind pinned project session)
          start_task req owner session id behind
          pure (record { task_id = id; state = received; created = true; queued_behind = behind }))
        s
insert_then-Recorded req owner tenant version id behind pinned project session d s missing same r u
      h =
    let t = new_task req owner tenant version behind pinned project session in
    let (x, s₁, e₁, h₁) = >>=-eq-ok (insert_task id t) _ s h in
    let (fresh, written) = inserted id t s e₁ in
    let missing' : find_first (is_repeat tenant owner req.profile_id req.idempotency_key) s.tasks
        ≡ none =
      ap (find_first (is_repeat tenant owner req.profile_id req.idempotency_key)) same ∙ missing in
    quietly (Recorded req owner tenant) (start_task req owner session id behind) _
      (insert id t s.tasks) s₁ written (start_task-still req owner session id behind)
      (λ a s₂ e₂.
        pure-Recorded req owner tenant version id behind pinned project session s.tasks s₂ missing'
          fresh e₂)
      r u h₁

create_task-Recorded :
    (req : HandoverRequest) (owner tenant : ℕ) (given : Option ℕ) (snapshot : Option Pack)
    (current id : ℕ) (s : Store)
    → find_first (is_repeat tenant owner req.profile_id req.idempotency_key) s.tasks ≡ none
    → Ends (Recorded req owner tenant) (create_task req owner tenant given snapshot current id) s
unfolding create_task
create_task-Recorded req owner tenant given snapshot current id s missing =
    let d = s.tasks in
    let P = Recorded req owner tenant in
    quietly P _ _ d s refl (search intake_rules depth 30) λ session s₁ e₁.
      quietly P _ _ d s₁ e₁ (search intake_rules depth 30) λ a₂ s₂ e₂.
        quietly P _ _ d s₂ e₂ (search intake_rules depth 30) λ project s₃ e₃.
          quietly P _ _ d s₃ e₃ (search intake_rules depth 30) λ a₄ s₄ e₄.
            quietly P _ _ d s₄ e₄ (search intake_rules depth 30) λ a₅ s₅ e₅.
              quietly P _ _ d s₅ e₅ (search intake_rules depth 30) λ a₆ s₆ e₆.
                quietly P _ _ d s₆ e₆ (search intake_rules depth 30) λ busy s₇ e₇.
                  quietly P _ _ d s₇ e₇ (search intake_rules depth 30) λ pinned s₈ e₈ r u h.
                    insert_then-Recorded req owner tenant _ id _ pinned project session d s₈ missing
                      e₈ r u h

-- The answer to a request whose key stands in the row `old`
abbrev answer_known : HandoverRequest → ℕ → Task → Store → Result Fault Receipt × Store
answer_known req old t s = (
  if t.request_digest == req.digest
      then ok (record { task_id = old; state = t.state; created = false; queued_behind = none })
      else err idempotency_conflict,
  s,
)

pub handover_known :
    (req : HandoverRequest) (owner tenant : ℕ) (given : Option ℕ) (snapshot : Option Pack)
    (current id : ℕ) (s : Store) (old : ℕ) (t : Task)
    → find_first (is_repeat tenant owner req.profile_id req.idempotency_key) s.tasks ≡ some (old, t)
    → handover req owner tenant given snapshot current id s ≡ answer_known req old t s
unfolding handover transaction ◌>>=◌
handover_known req owner tenant given snapshot current id s old t e =
    rw e (elim (Bool-cases (t.request_digest == req.digest)) [
      | inl same ↦ rw same
      | inr other ↦ rw other
    ])

pub handover_new :
    (req : HandoverRequest) (owner tenant : ℕ) (given : Option ℕ) (snapshot : Option Pack)
    (current id : ℕ) (s : Store)
    → find_first (is_repeat tenant owner req.profile_id req.idempotency_key) s.tasks ≡ none
    → handover req owner tenant given snapshot current id s
      ≡ transaction (create_task req owner tenant given snapshot current id) s
unfolding handover transaction ◌>>=◌
handover_new req owner tenant given snapshot current id s e = rw e refl

known-Recorded :
    (req : HandoverRequest) (owner tenant old : ℕ) (t : Task) (s s' : Store) (r : Receipt)
    → find_first (is_repeat tenant owner req.profile_id req.idempotency_key) s.tasks ≡ some (old, t)
    → answer_known req old t s ≡ (ok r, s')
    → Recorded req owner tenant r s'
known-Recorded req owner tenant old t s s' r e h =
    elim (Bool-cases (t.request_digest == req.digest)) [
      | inr other ↦
          let no : answer_known req old t s ≡ (err idempotency_conflict, s) = rw other refl in cc
      | inl equal ↦
          let answer : Receipt = record {
            task_id = old;
            state = t.state;
            created = false;
            queued_behind = none;
          } in
          let yes : answer_known req old t s ≡ (ok answer, s) = rw equal refl in
          let returned : Path (Result Fault Receipt) (ok answer) (ok r) =
            ap (λ (x : Result Fault Receipt × Store). x.0) (sym yes ∙ h) in
          let same : answer ≡ r = cc in
          let last : s ≡ s' = ap (λ (x : Result Fault Receipt × Store). x.1) (sym yes ∙ h) in
          subst (λ (x : Store). Recorded req owner tenant r x) last
            (subst (λ (x : Receipt). Recorded req owner tenant x s) same
              (t, e, (==_iff t.request_digest req.digest).0 equal, refl))
    ]

handover-Recorded :
    (req : HandoverRequest) (owner tenant : ℕ) (given : Option ℕ) (snapshot : Option Pack)
    (current id : ℕ) (s s' : Store) (r : Receipt)
    → handover req owner tenant given snapshot current id s ≡ (ok r, s')
    → Recorded req owner tenant r s'
handover-Recorded req owner tenant given snapshot current id s s' r h =
    by_row (find_first (is_repeat tenant owner req.profile_id req.idempotency_key) s.tasks) refl
  where
    by_row :
        (o : Option (ℕ × Task))
        → find_first (is_repeat tenant owner req.profile_id req.idempotency_key) s.tasks ≡ o
        → Recorded req owner tenant r s'
    by_row none e = create_task-Recorded req owner tenant given snapshot current id s e r s' (
        transaction-eq-ok _ s
          (sym (handover_new req owner tenant given snapshot current id s e) ∙ h))
    by_row (some (old, t)) e =
        known-Recorded req owner tenant old t s s' r e
          (sym (handover_known req owner tenant given snapshot current id s old t e) ∙ h)

-- A delegation is recorded once: after a `handover` that returned, every further one of the same
-- owner and tenant to the same expert under the same idempotency key changes nothing, whatever else
-- it asks for and whatever id it draws. If its digest is that of the first request, it is answered
-- with the task of the first and `created` false; if not, it raises `IdempotencyConflict`.
pub handover_again :
    (req again : HandoverRequest) (owner tenant : ℕ) (given given' : Option ℕ)
    (snapshot snapshot' : Option Pack) (current current' id id' : ℕ) (s s' : Store) (r : Receipt)
    → handover req owner tenant given snapshot current id s ≡ (ok r, s')
    → again.idempotency_key ≡ req.idempotency_key
    → again.profile_id ≡ req.profile_id
    → ((again.digest ≡ req.digest)
        × (handover again owner tenant given' snapshot' current' id' s' ≡ (
          ok (record {
            task_id = r.task_id;
            state = r.state;
            created = false;
            queued_behind = none;
          }),
          s',
        )))
      ⊎ ((again.digest ≢ req.digest)
          × (handover again owner tenant given' snapshot' current' id' s'
              ≡ (err idempotency_conflict, s')))
handover_again req again owner tenant given given' snapshot snapshot' current current' id id' s s' r
      h key expert =
    let (t, found, digest, state) =
      handover-Recorded req owner tenant given snapshot current id s s' r h in
    let there =
      ap (λ (k : ℕ). find_first (is_repeat tenant owner again.profile_id k) s'.tasks) key
      ∙ ap (λ (p : Profile). find_first (is_repeat tenant owner p req.idempotency_key) s'.tasks)
          expert
      ∙ found in
    let answer =
      handover_known again owner tenant given' snapshot' current' id' s' r.task_id t there in
    elim (Bool-cases (t.request_digest == again.digest)) [
      | inl equal ↦ inl (
        sym ((==_iff t.request_digest again.digest).0 equal) ∙ digest,
        answer
            ∙ (let a : answer_known again r.task_id t s' ≡ (
              ok (record {
                task_id = r.task_id;
                state = t.state;
                created = false;
                queued_behind = none;
              }),
              s',
            ) =
                  rw equal refl in
                a)
            ∙ ap
                (λ (x : TaskState). (
                  ok (record {
                    task_id = r.task_id;
                    state = x;
                    created = false;
                    queued_behind = none;
                  }),
                  s',
                ))
                state,
      )
      | inr differs ↦ inr (
        λ same. cc ((==_iff t.request_digest again.digest).1 (digest ∙ sym same)),
        answer ∙ rw differs refl,
      )
    ]
