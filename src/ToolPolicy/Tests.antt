-- ===== src/ToolPolicy/Tests.antt =====
-- Policies and grants of app/app/domain/workbench/tool_policy.py, and the theorems about them, at
-- concrete commands.
use investment_backend.Base.{
  ◌≡◌, ◌≤◌, refl, false, not, ◌&&◌, none, some, [], ◌∷◌, take, length, is_empty,
}
use investment_backend.Base.Exec.{ok, err}
use investment_backend.ToolPolicy.Rules.{
  allow, ask, deny, allow_questions, deny_questions, relaxes_questions, tier_order, command, Tokens,
  Policy, default_policy, Override, relaxes_tier, merge_policy, and_then, grant_prefix, decide,
  prefix_matches, is_command, grant_matches,
}
use investment_backend.ToolPolicy.Strict.{questions_order, merge-decide_stricter}
use investment_backend.ToolPolicy.Grants.{grant_of, grant_covers_request, grant_covers_only}

abbrev git_log : Tokens
git_log = "git" ∷ "log" ∷ "--oneline" ∷ []

abbrev careful : Override
careful = record {
  want_in = some ask;
  want_out = none;
  want_command = none;
  more_commands = ("git" ∷ "log" ∷ []) ∷ [];
  want_network = none;
  want_questions = none;
  want_max = some 1;
}

-- The expert's policy lets no question through.
abbrev silent : Policy
silent = record default_policy { questions = deny_questions }

abbrev merged : Policy
merged = record silent {
  file_change_in_project = ask;
  command_allow = ("git" ∷ "log" ∷ []) ∷ [];
  max_questions = 1;
}

merged_by_step : merge_policy silent (some careful) ≡ ok merged
unfolding merge_policy and_then
merged_by_step = refl

-- The step's prefix lets `git log` through, where the expert's policy asks.
git_log_allowed : decide merged command git_log false ≡ allow
unfolding decide
git_log_allowed = refl

git_log_asked : decide default_policy command git_log false ≡ ask
unfolding decide
git_log_asked = refl

questions_not_relaxed :
    merge_policy silent (some (record careful { want_questions = some allow_questions }))
    ≡ err relaxes_questions
unfolding merge_policy and_then
questions_not_relaxed = refl

network_not_relaxed :
    merge_policy default_policy (some (record careful { want_network = some allow }))
    ≡ err (relaxes_tier deny allow)
unfolding merge_policy and_then
network_not_relaxed = refl

merge-decide_stricter_example :
    (tier_order (decide silent command ("rm" ∷ "x" ∷ []) false)
      ≤ tier_order (decide merged command ("rm" ∷ "x" ∷ []) false))
    × (questions_order silent.questions ≤ questions_order merged.questions)
    × (1 ≤ 3)
unfolding prefix_matches
merge-decide_stricter_example =
    merge-decide_stricter silent careful merged command ("rm" ∷ "x" ∷ []) false merged_by_step refl

grant_covers_request_example :
    grant_matches (grant_of command git_log) command git_log
    ≡ not (is_command command && is_empty git_log)
grant_covers_request_example = grant_covers_request command git_log

grant_covers_only_example :
    (command ≡ command)
    × (take (length (take 2 git_log)) ("git" ∷ "log" ∷ "-p" ∷ []) ≡ take 2 git_log)
unfolding grant_of grant_matches grant_prefix
grant_covers_only_example = grant_covers_only git_log command ("git" ∷ "log" ∷ "-p" ∷ []) refl
