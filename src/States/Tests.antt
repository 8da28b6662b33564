-- ===== src/States/Tests.antt =====
-- Runs of the validators of app/app/domain/workbench/states.py, and the theorems at concrete words.
use investment_backend.Base.{◌≡◌, refl, none, some}
use investment_backend.Base.Exec.{ok, err}
use investment_backend.States.Words.{
  running, succeeded, invalid_task_transition, not_a_word, check_task_transition,
  validate_task_transition,
}

resource_wait : validate_task_transition "RUNNING" "WAITING" (some "RESOURCE") ≡ ok tt
unfolding validate_task_transition
resource_wait = refl

unknown_reason :
    validate_task_transition "RUNNING" "WAITING" (some "LUNCH") ≡ err (not_a_word "LUNCH")
unfolding validate_task_transition
unknown_reason = refl

-- The reason is not looked at when the move is to another state.
reason_ignored : validate_task_transition "WAITING" "QUEUED" (some "LUNCH") ≡ ok tt
unfolding validate_task_transition
reason_ignored = refl

no_way_back :
    check_task_transition succeeded running none ≡ err (invalid_task_transition succeeded running)
unfolding check_task_transition
no_way_back = refl
