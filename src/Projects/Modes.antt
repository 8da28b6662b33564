-- ===== src/Projects/Modes.antt =====
-- What a turn may do: `mode_of`, `turn_settings` and `thread_settings` of
-- app/app/domain/workbench/projects.py. A machine is known by its key, and the
-- constant `THREAD_CONFIG` of a thread is left out.
use Prim.Native.String.{String}
use text.Mathlib.Text.{◌==◌ as text_eq}
use investment_backend.Base.{
  ℕ, Bool, true, false, not, ◌&&◌, ◌||◌, Option, none, some, List, [], ◌∷◌, if◌then◌else◌, is_some,
}
use investment_backend.Base.Exec.{Result, ok, err}
use investment_backend.Store.{ConversationKind}
use investment_backend.Projects.Text.{Text, slash, starts_with}

-- `approval_policy`, with the set `APPROVAL_POLICIES`
unfoldable pub is_policy : String → Bool
is_policy chosen =
    text_eq chosen "untrusted" || text_eq chosen "on-request" || text_eq chosen "never"

unfoldable pub approval_policy : Option String → String
unfolding is_policy
approval_policy none = "on-request"
approval_policy (some chosen) = if is_policy chosen then chosen else "on-request"

-- `kind in HANDS_ON`
unfoldable pub is_hands_on : ConversationKind → Bool
is_hands_on ConversationKind.chat = false
is_hands_on ConversationKind.work = true
is_hands_on ConversationKind.expert = true

abbrev is_expert_kind : ConversationKind → Bool
is_expert_kind ConversationKind.expert = true
is_expert_kind _ = false

-- `Mode`
pub data Mode : Type 0 where
  chat chat_in_project work expert : Mode

pub data ValueError : Type 0 where
  needs_project : ValueError

-- `directory is not None and environment_key is not None`
abbrev pub in_project : Option Text → Option ℕ → Bool
in_project directory key = is_some directory && is_some key

-- `mode_of`
unfoldable pub mode_of :
    ConversationKind → Option Text → Option ℕ → Bool → Bool → Result ValueError Mode
unfolding is_hands_on
mode_of kind directory key online by_expert =
    if is_hands_on kind || by_expert
    then (if not (in_project directory key)
        then err needs_project
        else ok (if by_expert || is_expert_kind kind then Mode.expert else Mode.work))
    else if in_project directory key && online
    then ok Mode.chat_in_project
    else ok Mode.chat

-- `orchestrator_cwd`
unfoldable pub orchestrator_cwd : Option Text → Option Text
orchestrator_cwd none = none
orchestrator_cwd (some directory) =
    if starts_with directory (slash ∷ []) then some directory else none

-- `sandboxPolicy` of a turn: `writableRoots` and `networkAccess`, or `networkAccess`
pub data SandboxPolicy : Type 0 where
  workspace_write : List Text → Bool → SandboxPolicy
  read_only : Bool → SandboxPolicy

-- The settings of a turn; `cwd` is `none` where the key is not sent.
pub record Settings : Type 0 where
  pub environments : List (ℕ × Text)
  pub cwd : Option Text
  pub sandbox_policy : SandboxPolicy
  pub approval : String

-- `[{"environmentId": environment_key, "cwd": directory}]`
abbrev pub environment : Option Text → Option ℕ → List (ℕ × Text)
environment (some directory) (some key) = (key, directory) ∷ []
environment _ _ = []

abbrev pub settings_in : Mode → Option Text → Option ℕ → Option String → Settings
settings_in Mode.chat directory key approval = record {
  environments = [];
  cwd = none;
  sandbox_policy = read_only false;
  approval = "never";
}
settings_in Mode.chat_in_project directory key approval = record {
  environments = environment directory key;
  cwd = orchestrator_cwd directory;
  sandbox_policy = read_only false;
  approval = "never";
}
settings_in _ directory key approval = record {
  environments = environment directory key;
  cwd = orchestrator_cwd directory;
  sandbox_policy = workspace_write [] false;
  approval = approval_policy approval;
}

-- `turn_settings`
unfoldable pub turn_settings :
    ConversationKind
    → Option Text
    → Option ℕ
    → Bool
    → Option String
    → Bool
    → Result ValueError Settings
unfolding mode_of orchestrator_cwd approval_policy
turn_settings kind directory key online approval by_expert =
    elim (mode_of kind directory key online by_expert) [
      | err fault ↦ err fault
      | ok mode ↦ ok (settings_in mode directory key approval)
    ]

-- `sandbox` of a thread
pub data Sandbox : Type 0 where
  workspace_write_mode : Sandbox
  read_only_mode : Sandbox

-- The settings of a thread; `model` is `none` where the key is not sent.
pub record ThreadSettings : Type 0 where
  pub environments : List (ℕ × Text)
  pub cwd : Option Text
  pub sandbox : Sandbox
  pub approval : String
  pub model : Option String

-- `if model:`
abbrev pub model_given : Option String → Option String
model_given none = none
model_given (some name) = if text_eq name "" then none else some name

-- `thread_settings`
unfoldable pub thread_settings :
    ConversationKind
    → Option Text
    → Option ℕ
    → Option String
    → Option String
    → Result ValueError ThreadSettings
unfolding is_hands_on orchestrator_cwd approval_policy
thread_settings kind directory key approval model =
    if is_hands_on kind && not (in_project directory key)
    then err needs_project
    else ok (record {
      environments = environment directory key;
      cwd = if in_project directory key then orchestrator_cwd directory else none;
      sandbox = if is_hands_on kind then workspace_write_mode else read_only_mode;
      approval = if is_hands_on kind then approval_policy approval else "never";
      model = model_given model;
    })
