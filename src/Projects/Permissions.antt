-- ===== src/Projects/Permissions.antt =====
-- What turns and threads of each kind of conversation are allowed.
use Prim.Native.String.{String}
use investment_backend.Base.{
  ℕ, ◌≡◌, refl, Bool, true, false, ◌||◌, ◌⊎◌, Option, none, some, [], ◌∷◌, subst, Bool-cases, inl,
  inr,
}
use investment_backend.Base.Exec.{Result, ok, err}
use investment_backend.Store.{ConversationKind}
use investment_backend.Projects.Text.{Text, slash, starts_with}
use investment_backend.Projects.Modes.{
  is_hands_on, is_policy, approval_policy, ValueError, Settings, SandboxPolicy, workspace_write,
  read_only, Sandbox, workspace_write_mode, read_only_mode, ThreadSettings, model_given,
  orchestrator_cwd, turn_settings, thread_settings, mode_of,
}

approval_policy-is_policy : (chosen : Option String) → is_policy (approval_policy chosen) ≡ true
unfolding approval_policy is_policy
approval_policy-is_policy none = refl
approval_policy-is_policy (some chosen) = elim (Bool-cases (is_policy chosen)) [
  | inl listed ↦ rw listed listed
  | inr other ↦ rw other refl
]

-- The directory at the top is the one of the project, or is not sent.
abbrev pub AtMost : Option Text → Text → Type 0
AtMost cwd d = (cwd ≡ none) ⊎ (cwd ≡ some d)

cwd-AtMost : (d : Text) → AtMost (orchestrator_cwd (some d)) d
unfolding orchestrator_cwd
cwd-AtMost d = elim (Bool-cases (starts_with d (slash ∷ []))) [
  | inl absolute ↦ inr (rw absolute refl)
  | inr other ↦ inl (rw other refl)
]

-- What a turn with these settings can reach and change: nothing, the one folder it was given to read,
-- or that folder to write.
pub data IsConfined (directory : Option Text) (key : Option ℕ) (by_hand : Bool) (t : Settings)
    : Type 0 where
  talks :
      t.environments ≡ []
      → t.cwd ≡ none
      → t.sandbox_policy ≡ read_only false
      → t.approval ≡ "never"
      → by_hand ≡ false
      → IsConfined directory key by_hand t
  reads :
      (d : Text) (k : ℕ)
      → directory ≡ some d
      → key ≡ some k
      → t.environments ≡ (k, d) ∷ []
      → AtMost t.cwd d
      → t.sandbox_policy ≡ read_only false
      → t.approval ≡ "never"
      → by_hand ≡ false
      → IsConfined directory key by_hand t
  writes :
      (d : Text) (k : ℕ)
      → directory ≡ some d
      → key ≡ some k
      → t.environments ≡ (k, d) ∷ []
      → AtMost t.cwd d
      → t.sandbox_policy ≡ workspace_write [] false
      → is_policy t.approval ≡ true
      → by_hand ≡ true
      → IsConfined directory key by_hand t

abbrev Confines : Option Text → Option ℕ → Bool → Result ValueError Settings → Type 0
Confines directory key by_hand (err fault) = Unit {0}
Confines directory key by_hand (ok t) = IsConfined directory key by_hand t

turn_settings-Confines :
    (kind : ConversationKind) (directory : Option Text) (key : Option ℕ) (online : Bool)
    (approval : Option String) (by_expert : Bool)
    → Confines directory key
        (is_hands_on kind || by_expert)
        (turn_settings kind directory key online approval by_expert)
unfolding turn_settings mode_of is_hands_on
turn_settings-Confines ConversationKind.chat (some d) (some k) true approval false =
    reads d k refl refl refl (cwd-AtMost d) refl refl refl
turn_settings-Confines ConversationKind.chat (some d) (some k) false approval false =
    talks refl refl refl refl refl
turn_settings-Confines ConversationKind.chat (some d) none online approval false =
    talks refl refl refl refl refl
turn_settings-Confines ConversationKind.chat none key online approval false =
    talks refl refl refl refl refl
turn_settings-Confines ConversationKind.chat (some d) (some k) online approval true =
    writes d k refl refl refl (cwd-AtMost d) refl (approval_policy-is_policy approval) refl
turn_settings-Confines ConversationKind.chat (some d) none online approval true = tt
turn_settings-Confines ConversationKind.chat none key online approval true = tt
turn_settings-Confines ConversationKind.work (some d) (some k) online approval true =
    writes d k refl refl refl (cwd-AtMost d) refl (approval_policy-is_policy approval) refl
turn_settings-Confines ConversationKind.work (some d) (some k) online approval false =
    writes d k refl refl refl (cwd-AtMost d) refl (approval_policy-is_policy approval) refl
turn_settings-Confines ConversationKind.work (some d) none online approval by_expert = tt
turn_settings-Confines ConversationKind.work none key online approval by_expert = tt
turn_settings-Confines ConversationKind.expert (some d) (some k) online approval true =
    writes d k refl refl refl (cwd-AtMost d) refl (approval_policy-is_policy approval) refl
turn_settings-Confines ConversationKind.expert (some d) (some k) online approval false =
    writes d k refl refl refl (cwd-AtMost d) refl (approval_policy-is_policy approval) refl
turn_settings-Confines ConversationKind.expert (some d) none online approval by_expert = tt
turn_settings-Confines ConversationKind.expert none key online approval by_expert = tt

-- Whatever a page sends, the settings of a turn have no network. A turn of a chat has a read-only
-- sandbox, every approval is refused, and it has no machine at all or the folder of its project on
-- the machine of the project. A turn of work or of an expert has the folder of its project on the
-- machine of the project, may write there and in no further root, and its approval policy is one that
-- is known. In both, the directory at the top is the project's folder or is not sent.
pub turn_settings-IsConfined :
    (kind : ConversationKind) (directory : Option Text) (key : Option ℕ) (online : Bool)
    (approval : Option String) (by_expert : Bool) (t : Settings)
    → turn_settings kind directory key online approval by_expert ≡ ok t
    → IsConfined directory key (is_hands_on kind || by_expert) t
turn_settings-IsConfined kind directory key online approval by_expert t h =
    subst (Confines directory key (is_hands_on kind || by_expert)) h
      (turn_settings-Confines kind directory key online approval by_expert)

-- The mode of a sandbox that a policy belongs to
abbrev pub mode_of_policy : SandboxPolicy → Sandbox
mode_of_policy (workspace_write roots network) = workspace_write_mode
mode_of_policy (read_only network) = read_only_mode

-- What the settings of a turn say of a thread
abbrev pub as_thread : Option String → Result ValueError Settings → Result ValueError ThreadSettings
as_thread model (err fault) = err fault
as_thread model (ok t) = ok (record {
  environments = t.environments;
  cwd = t.cwd;
  sandbox = mode_of_policy t.sandbox_policy;
  approval = t.approval;
  model = model_given model;
})

-- While the machine of the project is online, a thread starts with the environments, the directory,
-- the kind of sandbox and the approval policy that its first turn sends, unless that turn is handed
-- to an expert; both refuse work without a project.
pub turn_settings-thread_settings :
    (kind : ConversationKind) (directory : Option Text) (key : Option ℕ)
    (approval model : Option String)
    → as_thread model (turn_settings kind directory key true approval false)
      ≡ thread_settings kind directory key approval model
unfolding turn_settings thread_settings mode_of is_hands_on
turn_settings-thread_settings ConversationKind.chat (some d) (some k) approval model = refl
turn_settings-thread_settings ConversationKind.chat (some d) none approval model = refl
turn_settings-thread_settings ConversationKind.chat none key approval model = refl
turn_settings-thread_settings ConversationKind.work (some d) (some k) approval model = refl
turn_settings-thread_settings ConversationKind.work (some d) none approval model = refl
turn_settings-thread_settings ConversationKind.work none key approval model = refl
turn_settings-thread_settings ConversationKind.expert (some d) (some k) approval model = refl
turn_settings-thread_settings ConversationKind.expert (some d) none approval model = refl
turn_settings-thread_settings ConversationKind.expert none key approval model = refl
