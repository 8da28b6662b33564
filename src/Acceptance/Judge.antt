-- ===== src/Acceptance/Judge.antt =====
-- `judge` and `timed_out` of app/app/application/workbench/acceptance.py, `harden` of
-- app/app/application/workbench/deliverable_check.py, and `AcceptanceRule` of
-- app/app/domain/workbench/packs.py.
use investment_backend.Base.{
  ℕ, Bool, true, false, not, ◌&&◌, Option, none, some, List, [], ◌∷◌, ◌++◌, map, leb, length, any,
  if◌then◌else◌, is_empty,
}
use investment_backend.Projects.Text.{Text}
use investment_backend.Acceptance.Json.{
  Json, null, array, object, nil, cons, find_field, is_object, get, text_of, Scalar, is_blank,
  item_count, items_all_equal, is_filled,
}
use investment_backend.Acceptance.Extract.{extract_json, positions}

-- `AcceptanceRule.kind`
pub data Kind : Type 0 where
  json_object required_keys non_empty list_min no_positioning_advice max_chars all_equal list_empty
        blank :
      Kind

-- `AcceptanceRule`
pub record Rule : Type 0 where
  pub kind : Kind
  pub keys : List Text
  pub path : Option Text
  pub min_items : ℕ
  pub max_chars : ℕ
  pub field : Option Text
  pub equals : Scalar
  pub message : Text
  pub label : Text

-- A message to the user: empty, the rule's, or one of the two that the code writes
pub data Message : Type 0 where
  no_message : Message
  of_rule : Text → Message
  not_an_object : Message
  stopped_after : ℕ → Message

pub data CheckKind : Type 0 where
  of_kind : Kind → CheckKind
  in_time : CheckKind

-- An entry of `Verdict.checks`; in `passed`, `none` says that the rule was not checked.
pub record Check : Type 0 where
  pub rule : CheckKind
  pub path : Option Text
  pub passed : Option Bool
  pub label : Text
  pub message : Message

pub data Failure : Type 0 where
  not_json : Failure
  broken : Kind → Option Text → Text → Failure
  timeout : ℕ → Failure
  file_missing : Text → Failure

pub record Verdict : Type 0 where
  pub ok : Bool
  pub parsed : Option Json
  pub failures : List Failure
  pub checks : List Check

abbrev pub is_max_chars : Kind → Bool
is_max_chars Kind.max_chars = true
is_max_chars _ = false

abbrev pub is_json_object : Kind → Bool
is_json_object Kind.json_object = true
is_json_object _ = false

abbrev pub has_keys : Json → List Text → Bool
has_keys value [] = true
has_keys (object fields) (key ∷ keys) = elim (find_field key fields) [
  | none ↦ false
  | some _ ↦ has_keys (object fields) keys
]
has_keys _ (key ∷ keys) = false

-- The checks that were not made
abbrev pub unchecked : Rule → Check
unchecked r = record {
  rule = of_kind r.kind;
  path = r.path;
  passed = none;
  label = r.label;
  message = no_message;
}

-- `next((r for r in rules if r.kind == "json_object"), None)`
abbrev pub first_object : List Rule → Option Rule
first_object [] = none
first_object (r ∷ rules) =
    let later = first_object rules in if is_json_object r.kind then some r else later

-- `for r in rules if r is not first`, each in its place
abbrev pub without_first : List Rule → List Rule
without_first [] = []
without_first (r ∷ rules) =
    let later = without_first rules in if is_json_object r.kind then rules else r ∷ later

-- The first check when the text is no JSON object
unfoldable pub object_check : Option Rule → Check
object_check none = record {
  rule = of_kind Kind.json_object;
  path = none;
  passed = some false;
  label = [];
  message = not_an_object;
}
object_check (some r) = record {
  rule = of_kind Kind.json_object;
  path = none;
  passed = some false;
  label = r.label;
  message = if is_empty r.message then not_an_object else of_rule r.message;
}

-- The label of the check that a step that was stopped did not meet
abbrev in_time_label : Text
in_time_label = 22312 ∷ 26102 ∷ 38480 ∷ 20869 ∷ 20132 ∷ 22238 ∷ []

-- `timed_out`
unfoldable pub timed_out : ℕ → List Rule → Verdict
timed_out minutes rules = record {
  ok = false;
  parsed = none;
  failures = timeout minutes ∷ [];
  checks =
      record {
        rule = in_time;
        path = none;
        passed = some false;
        label = in_time_label;
        message = stopped_after minutes;
      }
      ∷ map unchecked rules;
}

module _ (loads : Text → Option Json) (float_eq : ℕ → ℕ → Bool) (is_zero : ℕ → Bool) where
  abbrev pub text_or_empty : Option Text → Text
  text_or_empty none = []
  text_or_empty (some text) = text

  -- The branches of the loop of `judge`, over what was parsed; where nothing was, it is `None`.
  unfoldable pub passes : Option Text → Json → Rule → Bool
  unfolding get text_of is_blank items_all_equal is_filled positions
  passes text parsed r = elim r.kind [
    | Kind.json_object ↦ is_object parsed
    | Kind.required_keys ↦ has_keys parsed r.keys
    | Kind.non_empty ↦ is_filled float_eq is_zero (get parsed r.path)
    | Kind.list_min ↦ elim (get parsed r.path) [
      | array items ↦ leb r.min_items (item_count items)
      | _ ↦ false
    ]
    | Kind.no_positioning_advice ↦ not (positions (text_of (get parsed r.path)))
    | Kind.max_chars ↦ leb (length (text_or_empty text)) r.max_chars
    | Kind.all_equal ↦ items_all_equal float_eq is_zero (get parsed r.path) r.field r.equals
    | Kind.list_empty ↦ elim (get parsed r.path) [
      | array items ↦ elim items [ nil ↦ true | cons _ _ ↦ false ]
      | _ ↦ false
    ]
    | Kind.blank ↦ is_blank (get parsed r.path)
  ]

  abbrev pub check_of : Bool → Rule → Check
  check_of passed r = record {
    rule = of_kind r.kind;
    path = r.path;
    passed = some passed;
    label = r.label;
    message = if passed then no_message else of_rule r.message;
  }

  -- The loop of `judge`
  unfoldable pub judge_rules : Option Text → Json → List Rule → Verdict → Verdict
  unfolding passes
  judge_rules text parsed [] v = v
  judge_rules text parsed (r ∷ rules) v =
      let passed = passes text parsed r in
      judge_rules text parsed rules (record v {
        ok = v.ok && passed;
        checks = v.checks ++ (check_of passed r ∷ []);
        failures =
            if passed then v.failures else v.failures ++ (broken r.kind r.path r.message ∷ []);
      })

  abbrev pub needs_json : List Rule → Bool
  needs_json rules = any (λ r. not (is_max_chars r.kind)) rules

  abbrev pub started : Option Json → Verdict
  started parsed = record { ok = true; parsed = parsed; failures = []; checks = [] }

  -- The answer when the text is no JSON object
  unfoldable pub unreadable : List Rule → Verdict
  unfolding object_check
  unreadable rules = record {
    ok = false;
    parsed = none;
    failures = not_json ∷ [];
    checks = object_check (first_object rules) ∷ map unchecked (without_first rules);
  }

  -- `_extract_json(text or "")`, if it is an object
  unfoldable pub parsed_object : Option Text → Option Json
  unfolding extract_json
  parsed_object text = elim (extract_json loads (text_or_empty text)) [
    | none ↦ none
    | some value ↦ if is_object value then some value else none
  ]

  -- `judge`
  unfoldable pub judge : Option Text → List Rule → Verdict
  unfolding judge_rules unreadable parsed_object
  judge text rules =
      if needs_json rules
      then elim (parsed_object text) [
        | none ↦ unreadable rules
        | some value ↦ judge_rules text value rules (started (some value))
      ]
      else judge_rules text null rules (started none)

-- Who says whether the file is there
pub data Source : Type 0 where
  events : Source
  agent : Source

-- `harden`
unfoldable pub harden : Verdict → Bool → Option Bool → Text → Verdict × Bool × Source
harden v true found file = (v, true, events)
harden v false none file = (v, false, events)
harden v false (some true) file = (v, true, agent)
harden v false (some false) file =
    (record v { ok = false; failures = v.failures ++ (file_missing file ∷ []) }, false, agent)
