-- ===== src/Ledger/Driven.antt =====
-- What follows an answer or a cancellation (app/app/application/workbench/interactions.py).
use investment_backend.Base.{
  ℕ, ◌≡◌, refl, sym, ap, subst, ◌∙◌, Bool, true, false, ◌&&◌, Option, none, some, List, ◌∷◌, lookup,
  any, ◌==◌, ==_iff, Bool-cases, inl, inr,
}
use investment_backend.Base.Exec.{Result, ok, err, pure, ◌>>=◌, transaction}
use investment_backend.Base.Exec.Respects.{>>=-eq-ok}
use investment_backend.States.{TaskState, queued}
use investment_backend.Store.{
  Session, Interaction, Response, Command, task_drive, approval_respond, turn_interrupt, Store,
  Fault, get_session, get_interaction, enqueue_command, not_found,
}
use investment_backend.Ledger.{
  respond_interaction, is_relayed, drive_on, pass_on, answer_interaction,
}

-- The command tells the runner of the session to drive the task on.
abbrev drives_task : ℕ → ℕ → Command → Bool
drives_task session_id task_id c = elim c.body [
  | task_drive t resumed ↦ c.session_id == session_id && t == task_id
  | approval_respond request decision response ↦ false
  | turn_interrupt t ↦ false
]

abbrev pub has_drive : ℕ → ℕ → List Command → Bool
has_drive session_id task_id commands = any (drives_task session_id task_id) commands

==_self : (n : ℕ) → (n == n) ≡ true
==_self n = (==_iff n n).1 refl

module _ (it : Interaction) (task_id v : ℕ) (of_task : it.task_id ≡ some task_id) where
  drive_on-has_drive :
      (s s' : Store)
      → drive_on it (some (queued, v)) s ≡ (ok tt, s')
      → has_drive it.session_id task_id s'.commands ≡ true
  unfolding drive_on get_session enqueue_command transaction ◌>>=◌
  drive_on-has_drive s s' h = by_session (lookup it.session_id s.sessions) refl
    where
      driven : Session → Store
      driven session = record s {
        commands =
            record {
              session_id = it.session_id;
              sandbox_id = session.sandbox_id;
              body = task_drive task_id false;
            }
            ∷ s.commands;
      }

      by_session :
          (o : Option Session)
          → lookup it.session_id s.sessions ≡ o
          → has_drive it.session_id task_id s'.commands ≡ true
      by_session none e =
          let no : drive_on it (some (queued, v)) s ≡ (err not_found, s) = rw of_task (rw e refl) in
          cc
      by_session (some session) e =
          let step : drive_on it (some (queued, v)) s ≡ (ok tt, driven session) =
            rw of_task (rw e refl) in
          let after : driven session ≡ s' =
            ap (λ (x : Result Fault Unit × Store). x.1) (sym step ∙ h) in
          let self = ==_self it.session_id in
          let same = ==_self task_id in
          let there : has_drive it.session_id task_id (driven session).commands ≡ true =
            rw self (rw same refl) in
          sym (ap (λ (x : Store). has_drive it.session_id task_id x.commands) after) ∙ there

-- No command is taken back.
abbrev KeepsDrives : Store → Store → Type 0
KeepsDrives s s' =
    (session_id task_id : ℕ)
    → has_drive session_id task_id s.commands ≡ true
    → has_drive session_id task_id s'.commands ≡ true

pass_on-KeepsDrives :
    (it : Interaction) (request_id decision : Option ℕ) (response : Response) (s : Store)
    → KeepsDrives s (pass_on it request_id decision response s).1
unfolding pass_on get_session enqueue_command transaction ◌>>=◌
pass_on-KeepsDrives it none decision response s i t h = h
pass_on-KeepsDrives it (some request) decision response s i t h =
    elim (Bool-cases (is_relayed it.kind)) [
      | inr other ↦ rw other h
      | inl relayed ↦ by_session relayed (lookup it.session_id s.sessions) refl
    ]
  where
    by_session :
        is_relayed it.kind ≡ true
        → (o : Option Session) → lookup it.session_id s.sessions ≡ o
        → has_drive i t (pass_on it (some request) decision response s).1.commands ≡ true
    by_session relayed none e = rw relayed (rw e h)
    by_session relayed (some session) e = rw relayed (rw e h)

get_known :
    (iid : ℕ) (it : Interaction) (s : Store)
    → lookup iid s.interactions ≡ some it
    → get_interaction iid s ≡ (ok it, s)
unfolding get_interaction ◌>>=◌
get_known iid it s e = rw e refl

pure-eq-ok :
    {A : Type 0} (a b : A) (s s' : Store) → pure {E = Fault} a s ≡ (ok b, s') → (a ≡ b) × (s ≡ s')
unfolding ◌>>=◌
pure-eq-ok a b s s' h = (cc, ap (λ (x : Result Fault _ × Store). x.1) h)

-- When an answer puts a task back into the queue, the runner is told: `answer_interaction` returns
-- QUEUED for a question of a task only after a `task.drive` for that task stands among the commands
-- of its session.
pub answer_interaction-has_drive :
    (sha256 : ℕ → ℕ) (iid token owner now task_id v : ℕ) (response : Response)
    (subject_digest decision request_id : Option ℕ) (it : Interaction) (s s' : Store)
    → lookup iid s.interactions ≡ some it
    → it.task_id ≡ some task_id
    → answer_interaction sha256 iid token response owner subject_digest decision request_id now s
      ≡ (ok (some (queued, v)), s')
    → has_drive it.session_id task_id s'.commands ≡ true
unfolding answer_interaction
answer_interaction-has_drive sha256 iid token owner now task_id v response subject_digest decision
      request_id it s s' known of_task h =
    let (it', s₀, e₀, h₀) = >>=-eq-ok (get_interaction iid) _ s h in
    let row : it' ≡ it = cc (get_known iid it s known) in
    let (result, s₁, e₁, h₁) =
      >>=-eq-ok (respond_interaction sha256 iid token response owner subject_digest queued now) _ s₀
        h₀ in
    let (u₂, s₂, e₂, h₂) = >>=-eq-ok (drive_on it' result) _ s₁ h₁ in
    let (u₃, s₃, e₃, h₃) = >>=-eq-ok (pass_on it' request_id decision response) _ s₂ h₂ in
    let (got, last) = pure-eq-ok result (some (queued, v)) s₃ s' h₃ in
    let drove : drive_on it (some (queued, v)) s₁ ≡ (ok tt, s₂) =
      sym (ap (λ (x : Interaction). drive_on x (some (queued, v)) s₁) row)
      ∙ sym (ap (λ (r : Option (TaskState × ℕ)). drive_on it' r s₁) got)
      ∙ e₂ in
    let kept =
      pass_on-KeepsDrives it' request_id decision response s₂ it.session_id task_id
        (drive_on-has_drive it task_id v of_task s₁ s₂ drove) in
    let there = ap (λ (x : Result Fault Unit × Store). x.1) e₃ ∙ last in
    subst (λ (x : Store). has_drive it.session_id task_id x.commands ≡ true) there kept
