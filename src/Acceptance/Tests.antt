-- ===== src/Acceptance/Tests.antt =====
-- A deliverable and two rules, and the theorems about verdicts at them.
use investment_backend.Base.{
  ℕ, ◌≡◌, refl, Bool, true, false, Option, none, some, [], ◌∷◌, ◌↔◌, is_empty, inl, inr, ◌==◌,
  if◌then◌else◌,
}
use investment_backend.Projects.Text.{Text, starts_with}
use investment_backend.Acceptance.Json.{
  Json, string, array, object, cons, nil, field, end, no_value,
}
use investment_backend.Acceptance.Extract.{extract_json, positions}
use investment_backend.Acceptance.Judge.{Kind, Rule, judge}
use investment_backend.Acceptance.Verdicts.{
  Accepts, all_passed, judge_iff, judge_fewer, judge_honest,
}

-- `{"a":["x"]}`
abbrev value : Json
value = object (field (97 ∷ []) (array (cons (string (120 ∷ [])) nil)) end)

-- A reader that knows one text, the beginning of `{"a":["x"]}`
abbrev read : Text → Option Json
read text = if starts_with text (123 ∷ 34 ∷ 97 ∷ []) then some value else none

abbrev equal : ℕ → ℕ → Bool
equal a b = a == b

abbrev zero_number : ℕ → Bool
zero_number n = n == 0

-- `ok {"a":["x"]}.`, in a fence
abbrev handed_in : Text
handed_in =
    96 ∷ 96 ∷ 96 ∷ 106 ∷ 10 ∷ 111 ∷ 107 ∷ 32 ∷ 123 ∷ 34 ∷ 97 ∷ 34 ∷ 58 ∷ 91 ∷ 34 ∷ 120 ∷ 34 ∷ 93
    ∷ 125 ∷ 46 ∷ 10 ∷ 96 ∷ 96 ∷ 96 ∷ []

found : extract_json read handed_in ≡ some value
unfolding extract_json
found = refl

-- `Strong Buy`
advises : positions (83 ∷ 116 ∷ 114 ∷ 111 ∷ 110 ∷ 103 ∷ 32 ∷ 66 ∷ 117 ∷ 121 ∷ []) ≡ true
unfolding positions
advises = refl

abbrev rule : Kind → Option Text → Rule
rule kind path = record {
  kind = kind;
  keys = [];
  path = path;
  min_items = 1;
  max_chars = 100;
  field = none;
  equals = no_value;
  message = [];
  label = [];
}

abbrev listed : Rule
listed = rule Kind.list_min (some (97 ∷ []))

abbrev short : Rule
short = rule Kind.max_chars none

accepted : (judge read equal zero_number (some handed_in) (listed ∷ short ∷ [])).ok ≡ true
unfolding judge
accepted = refl

-- No JSON: the rule on the length was not checked either.
refused : (judge read equal zero_number (some (111 ∷ [])) (listed ∷ short ∷ [])).ok ≡ false
unfolding judge
refused = refl

judge_iff_example :
    ((judge read equal zero_number (some handed_in) (listed ∷ short ∷ [])).ok ≡ true)
    ↔ Accepts read equal zero_number (some handed_in) (listed ∷ short ∷ [])
judge_iff_example = judge_iff read equal zero_number (some handed_in) (listed ∷ short ∷ [])

judge_fewer_example : (judge read equal zero_number (some handed_in) (short ∷ [])).ok ≡ true
judge_fewer_example =
    judge_fewer read equal zero_number (some handed_in) (listed ∷ short ∷ []) (short ∷ [])
      (λ r i. elim i [ inl same ↦ inr (inl same) | inr none_left ↦ absurd none_left ]) accepted

judge_honest_example :
    ((judge read equal zero_number none (listed ∷ [])).ok
      ≡ all_passed (judge read equal zero_number none (listed ∷ [])).checks)
    × ((judge read equal zero_number none (listed ∷ [])).ok
        ≡ is_empty (judge read equal zero_number none (listed ∷ [])).failures)
judge_honest_example = judge_honest read equal zero_number none (listed ∷ [])
