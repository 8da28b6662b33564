-- ===== src/ToolPolicy/Rules.antt =====
-- The functions of app/app/domain/workbench/tool_policy.py.
use Prim.Native.String.{String}
use text.Mathlib.Text.{starts_with, ◌==◌ as text_eq}
use investment_backend.Base.{
  ℕ, Bool, true, false, not, ◌&&◌, Option, none, some, List, [], ◌∷◌, ◌++◌, ltb, if◌then◌else◌,
  take, length, any, is_empty,
}
use investment_backend.Base.Exec.{Result, ok, err}

-- `Tier`
pub data Tier : Type 0 where
  allow : Tier
  ask : Tier
  deny : Tier

-- `TIER_ORDER`
unfoldable pub tier_order : Tier → ℕ
tier_order allow = 0
tier_order ask = 1
tier_order deny = 2

-- The five categories of a request
pub data Category : Type 0 where
  file_in : Category
  file_out : Category
  command : Category
  network : Category
  other : Category

-- `questions` of a policy
pub data Questions : Type 0 where
  allow_questions : Questions
  deny_questions : Questions

abbrev pub Tokens : Type 0
Tokens = List String

pub record Policy : Type 0 where
  pub file_change_in_project : Tier
  pub file_change_outside : Tier
  pub command_tier : Tier
  pub command_allow : List Tokens
  pub network_tier : Tier
  pub questions : Questions
  pub max_questions : ℕ

-- The defaults of the class
abbrev pub default_policy : Policy
default_policy = record {
  file_change_in_project = allow;
  file_change_outside = deny;
  command_tier = ask;
  command_allow = [];
  network_tier = deny;
  questions = allow_questions;
  max_questions = 3;
}

unfoldable pub tier_of : Policy → Category → Tier
tier_of p file_in = p.file_change_in_project
tier_of p file_out = p.file_change_outside
tier_of p command = p.command_tier
tier_of p network = p.network_tier
tier_of p other = ask

-- `ToolPolicyOverride`: what is not given stays.
pub record Override : Type 0 where
  pub want_in : Option Tier
  pub want_out : Option Tier
  pub want_command : Option Tier
  pub more_commands : List Tokens
  pub want_network : Option Tier
  pub want_questions : Option Questions
  pub want_max : Option ℕ

-- The messages of the `ValueError`s
pub data Relaxed : Type 0 where
  relaxes_tier : Tier → Tier → Relaxed
  relaxes_questions : Relaxed
  raises_max_questions : Relaxed

-- One turn of the loop over the four tiers
unfoldable pub stricter : Tier → Option Tier → Result Relaxed Tier
unfolding tier_order
stricter have none = ok have
stricter have (some want) =
    if ltb (tier_order want) (tier_order have) then err (relaxes_tier have want) else ok want

unfoldable pub merge_questions : Questions → Option Questions → Result Relaxed Questions
merge_questions have none = ok have
merge_questions deny_questions (some allow_questions) = err relaxes_questions
merge_questions deny_questions (some deny_questions) = ok deny_questions
merge_questions allow_questions (some want) = ok want

unfoldable pub merge_max : ℕ → Option ℕ → Result Relaxed ℕ
merge_max have none = ok have
merge_max have (some want) = if ltb have want then err raises_max_questions else ok want

unfoldable pub and_then : {E A B : Type 0} → Result E A → (A → Result E B) → Result E B
and_then (ok a) f = f a
and_then (err e) f = err e

-- `merge_policy`; the first refusal, in the order of the fields, is the one raised.
unfoldable pub merge_policy : Policy → Option Override → Result Relaxed Policy
unfolding stricter merge_questions merge_max
merge_policy base none = ok base
merge_policy base (some o) = and_then (stricter base.file_change_in_project o.want_in) (λ inside.
    and_then (stricter base.file_change_outside o.want_out) (λ outside.
      and_then (stricter base.command_tier o.want_command) (λ cmd.
        and_then (stricter base.network_tier o.want_network) (λ net.
          and_then (merge_questions base.questions o.want_questions) (λ questions.
            and_then (merge_max base.max_questions o.want_max) (λ most. ok (record {
              file_change_in_project = inside;
              file_change_outside = outside;
              command_tier = cmd;
              command_allow = base.command_allow ++ o.more_commands;
              network_tier = net;
              questions = questions;
              max_questions = most;
            })))))))

-- `==` of two tuples of arguments
unfoldable pub same_tokens : Tokens → Tokens → Bool
same_tokens [] [] = true
same_tokens [] (_ ∷ _) = false
same_tokens (_ ∷ _) [] = false
same_tokens (x ∷ xs) (y ∷ ys) = text_eq x y && same_tokens xs ys

unfoldable pub prefix_matches : Tokens → Tokens → Bool
unfolding same_tokens
prefix_matches prefix tokens =
    not (is_empty prefix) && same_tokens (take (length prefix) tokens) prefix

abbrev pub is_command : Category → Bool
is_command command = true
is_command _ = false

abbrev pub is_ask : Tier → Bool
is_ask ask = true
is_ask _ = false

-- `decide`
unfoldable pub decide : Policy → Category → Tokens → Bool → Tier
unfolding tier_of prefix_matches
decide policy category tokens after_decline =
    if after_decline
    then ask
    else if is_command category
        && is_ask (tier_of policy category)
        && any (λ p. prefix_matches p tokens) policy.command_allow
    then allow
    else tier_of policy category

-- `grant_prefix`
unfoldable pub grant_prefix : Category → Tokens → Option Tokens
grant_prefix category tokens = if is_command category then some (take 2 tokens) else none

-- What a grant for the task records
pub record Grant : Type 0 where
  pub category : Category
  pub command_prefix : Option Tokens

abbrev pub same_category : Category → Category → Bool
same_category file_in file_in = true
same_category file_out file_out = true
same_category command command = true
same_category network network = true
same_category other other = true
same_category _ _ = false

-- `grant_matches`
unfoldable pub grant_matches : Grant → Category → Tokens → Bool
unfolding prefix_matches
grant_matches grant category tokens =
    same_category grant.category category
    && (if is_command category
        then elim grant.command_prefix [ none ↦ false | some p ↦ prefix_matches p tokens ]
        else true)

-- A step of a workflow, as far as `dependents` reads it
pub record Step : Type 0 where
  pub step_id : String
  pub output_artifact : String
  pub input_refs : List String
  pub title : String

-- The first loop: the artifact of the first step with the id
unfoldable pub produced_by : List Step → String → Option String
produced_by [] step = none
produced_by (st ∷ rest) step =
    if text_eq st.step_id step then some st.output_artifact else produced_by rest step

-- The second loop
unfoldable pub users_of : List Step → String → String → List (String × String)
users_of [] step produced = []
users_of (st ∷ rest) step produced =
    let later = users_of rest step produced in
    if not (text_eq st.step_id step) && any (text_eq produced) st.input_refs
    then (st.step_id, st.title) ∷ later
    else later

unfoldable pub dependents : List Step → String → List (String × String)
unfolding produced_by users_of
dependents workflow step = elim (produced_by workflow step) [
  | none ↦ []
  | some produced ↦ users_of workflow step produced
]

-- The `command` of a request: a list of arguments, a line, or nothing.
pub data Given : Type 0 where
  arguments : Tokens → Given
  line : String → Given
  nothing : Given

-- `command_tokens`; `shlex.split` is `none` where it raises, and a line is blank exactly when
-- `str.split` finds nothing in it.
unfoldable pub command_tokens : (String → Option Tokens) → (String → Tokens) → Given → Tokens
command_tokens shlex split (arguments xs) = xs
command_tokens shlex split (line s) =
    if is_empty (split s) then [] else elim (shlex s) [ none ↦ split s | some xs ↦ xs ]
command_tokens shlex split nothing = []

-- What `classify` reads of the parameters
pub record Params : Type 0 where
  pub given_command : Given
  pub grant_root : Bool
  pub wants_network : Bool

-- `classify`
unfoldable pub classify :
    (String → Option Tokens) → (String → Tokens) → String → Params → Category × Tokens
unfolding command_tokens
classify shlex split method params =
    if starts_with method "item/commandExecution/"
    then (command, command_tokens shlex split params.given_command)
    else if starts_with method "item/fileChange/"
    then (if params.grant_root then file_out else file_in, [])
    else if starts_with method "item/permissions/"
    then (if params.wants_network then network else other, [])
    else (other, [])
