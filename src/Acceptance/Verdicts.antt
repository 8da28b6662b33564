-- ===== src/Acceptance/Verdicts.antt =====
-- What a verdict of app/app/application/workbench/acceptance.py says.
use investment_backend.Base.{
  ℕ, ◌≡◌, refl, sym, ap, subst, ◌∙◌, Bool, true, false, ◌&&◌, Option, none, some, List, [], ◌∷◌,
  ◌++◌, if◌then◌else◌, is_empty, Bool-cases, ◌⊎◌, inl, inr, ◌↔◌, arith,
}
use investment_backend.Projects.Text.{Text}
use investment_backend.Acceptance.Json.{Json, null}
use investment_backend.Acceptance.Judge.{
  Kind, Rule, Failure, broken, first_object, Check, Verdict, is_max_chars, passes, check_of,
  judge_rules, needs_json, started, unreadable, parsed_object, object_check, judge,
}

-- The rule stands in the list.
abbrev pub In : Rule → List Rule → Type 0
In r [] = ⊥
In r (x ∷ rules) = (r ≡ x) ⊎ In r rules

abbrev pub all_passed : List Check → Bool
all_passed [] = true
all_passed (c ∷ checks) = elim c.passed [ none ↦ false | some b ↦ b ] && all_passed checks

all_passed-append : (xs ys : List Check) → all_passed (xs ++ ys) ≡ all_passed xs && all_passed ys
all_passed-append [] ys = refl
all_passed-append (c ∷ xs) ys = let later = all_passed-append xs ys in ground arith

and_alone : (b : Bool) → b ≡ b && true
and_alone true = refl
and_alone false = refl

and_true : (a b : Bool) → a && b ≡ true → (a ≡ true) × (b ≡ true)
and_true a b h = (ground arith, ground arith)

module _ (loads : Text → Option Json) (float_eq : ℕ → ℕ → Bool) (is_zero : ℕ → Bool) where
  abbrev test : Option Text → Json → Rule → Bool
  test = passes loads float_eq is_zero

  abbrev run : Option Text → Json → List Rule → Verdict → Verdict
  run = judge_rules loads float_eq is_zero

  -- A text is good for the rules: it can be read where a rule looks into it, and every rule passes.
  pub record Accepts (text : Option Text) (rules : List Rule) : Type 0 where
    pub parsed : Json
    pub readable :
        needs_json loads float_eq is_zero rules ≡ true
        → parsed_object loads float_eq is_zero text ≡ some parsed
    pub every : (r : Rule) → In r rules → test text parsed r ≡ true

  -- The loop
  run_ok :
      (text : Option Text) (parsed : Json) (rules : List Rule) (v : Verdict)
      → (run text parsed rules v).ok ≡ true
      → (v.ok ≡ true) × ((r : Rule) → In r rules → test text parsed r ≡ true)
  unfolding judge_rules
  run_ok text parsed [] v h = (h, λ r i. absurd i)
  run_ok text parsed (x ∷ rules) v h =
      let (before, later) = run_ok text parsed rules _ h in
      let (was, now) = and_true v.ok (test text parsed x) before in
      (
        was,
        λ r i. elim i [ inl same ↦ ap (test text parsed) same ∙ now | inr there ↦ later r there ],
      )

  ok_run :
      (text : Option Text) (parsed : Json) (rules : List Rule) (v : Verdict)
      → v.ok ≡ true
      → ((r : Rule) → In r rules → test text parsed r ≡ true)
      → (run text parsed rules v).ok ≡ true
  unfolding judge_rules
  ok_run text parsed [] v h every = h
  ok_run text parsed (x ∷ rules) v h every =
      let now = every x (inl refl) in
      ok_run text parsed rules _ (ground arith) (λ r i. every r (inr i))

  -- A rule on the length alone does not look into the text.
  by_length :
      (text : Option Text) (a b : Json) (r : Rule)
      → is_max_chars r.kind ≡ true
      → test text a r ≡ test text b r
  unfolding passes
  by_length text a b r h = by_kind r.kind refl
    where
      by_kind : (k : Kind) → r.kind ≡ k → test text a r ≡ test text b r
      by_kind Kind.max_chars e = rw e refl
      by_kind Kind.json_object e = cc (sym (ap is_max_chars e) ∙ h)
      by_kind Kind.required_keys e = cc (sym (ap is_max_chars e) ∙ h)
      by_kind Kind.non_empty e = cc (sym (ap is_max_chars e) ∙ h)
      by_kind Kind.list_min e = cc (sym (ap is_max_chars e) ∙ h)
      by_kind Kind.no_positioning_advice e = cc (sym (ap is_max_chars e) ∙ h)
      by_kind Kind.all_equal e = cc (sym (ap is_max_chars e) ∙ h)
      by_kind Kind.list_empty e = cc (sym (ap is_max_chars e) ∙ h)
      by_kind Kind.blank e = cc (sym (ap is_max_chars e) ∙ h)

  lengths_only :
      (rules : List Rule) (r : Rule)
      → needs_json loads float_eq is_zero rules ≡ false
      → In r rules
      → is_max_chars r.kind ≡ true
  lengths_only [] r h i = absurd i
  lengths_only (x ∷ rules) r h (inl same) =
      ap (λ (y : Rule). is_max_chars y.kind) same ∙ ground arith
  lengths_only (x ∷ rules) r h (inr there) = lengths_only rules r (ground arith) there

  needs_some :
      (rules : List Rule) (r : Rule)
      → In r rules
      → is_max_chars r.kind ≡ false
      → needs_json loads float_eq is_zero rules ≡ true
  needs_some [] r i h = absurd i
  needs_some (x ∷ rules) r (inl same) h =
      let mine : is_max_chars x.kind ≡ false =
        sym (ap (λ (y : Rule). is_max_chars y.kind) same) ∙ h in
      ground arith
  needs_some (x ∷ rules) r (inr there) h = let later = needs_some rules r there h in ground arith

  judge_plain :
      (text : Option Text) (rules : List Rule)
      → needs_json loads float_eq is_zero rules ≡ false
      → judge loads float_eq is_zero text rules
        ≡ run text null rules (started loads float_eq is_zero none)
  unfolding judge
  judge_plain text rules h = rw h refl

  judge_read :
      (text : Option Text) (rules : List Rule) (value : Json)
      → needs_json loads float_eq is_zero rules ≡ true
      → parsed_object loads float_eq is_zero text ≡ some value
      → judge loads float_eq is_zero text rules
        ≡ run text value rules (started loads float_eq is_zero (some value))
  unfolding judge
  judge_read text rules value h e = rw h (rw e refl)

  judge_unread :
      (text : Option Text) (rules : List Rule)
      → needs_json loads float_eq is_zero rules ≡ true
      → parsed_object loads float_eq is_zero text ≡ none
      → judge loads float_eq is_zero text rules ≡ unreadable loads float_eq is_zero rules
  unfolding judge
  judge_unread text rules h e = rw h (rw e refl)

  judge-Accepts :
      (text : Option Text) (rules : List Rule)
      → (judge loads float_eq is_zero text rules).ok ≡ true
      → Accepts text rules
  unfolding unreadable
  judge-Accepts text rules h = elim (Bool-cases (needs_json loads float_eq is_zero rules)) [
    | inr plain ↦ record {
      parsed = null;
      readable = λ needs. cc plain;
      every =
          (run_ok text null rules _
            (sym (ap (λ (v : Verdict). v.ok) (judge_plain text rules plain)) ∙ h)).1;
    }
    | inl needs ↦ by_text needs (parsed_object loads float_eq is_zero text) refl
  ]
    where
      by_text :
          needs_json loads float_eq is_zero rules ≡ true
          → (o : Option Json) → parsed_object loads float_eq is_zero text ≡ o
          → Accepts text rules
      by_text needs none e =
          let no : false ≡ true =
            sym (ap (λ (v : Verdict). v.ok) (judge_unread text rules needs e)) ∙ h in
          cc
      by_text needs (some value) e = record {
        parsed = value;
        readable = λ _. e;
        every =
            (run_ok text value rules _
              (sym (ap (λ (v : Verdict). v.ok) (judge_read text rules value needs e)) ∙ h)).1;
      }

  Accepts-judge :
      (text : Option Text) (rules : List Rule)
      → Accepts text rules
      → (judge loads float_eq is_zero text rules).ok ≡ true
  Accepts-judge text rules a = elim (Bool-cases (needs_json loads float_eq is_zero rules)) [
    | inr plain ↦
        ap (λ (v : Verdict). v.ok) (judge_plain text rules plain)
        ∙ ok_run text null rules _ refl
            (λ r i. by_length text null a.parsed r (lengths_only rules r plain i) ∙ a.every r i)
    | inl needs ↦
        ap (λ (v : Verdict). v.ok) (judge_read text rules a.parsed needs (a.readable needs))
        ∙ ok_run text a.parsed rules _ refl a.every
  ]

  -- What is handed in is accepted exactly when it is good for the rules: where some rule looks into
  -- the text a JSON object can be read out of it, and every rule passes on its own.
  pub judge_iff :
      (text : Option Text) (rules : List Rule)
      → ((judge loads float_eq is_zero text rules).ok ≡ true) ↔ Accepts text rules
  judge_iff text rules = (judge-Accepts text rules, Accepts-judge text rules)

  -- Neither the order of the rules nor a repetition matters, and leaving rules out never turns an
  -- acceptance into a refusal: a text that is accepted under some rules is accepted under any rules
  -- taken from them.
  pub judge_fewer :
      (text : Option Text) (rules fewer : List Rule)
      → ((r : Rule) → In r fewer → In r rules)
      → (judge loads float_eq is_zero text rules).ok ≡ true
      → (judge loads float_eq is_zero text fewer).ok ≡ true
  judge_fewer text rules fewer part h =
      let a = judge-Accepts text rules h in
      Accepts-judge text fewer (record {
        parsed = a.parsed;
        readable = λ needs. a.readable (needs_rest fewer part needs);
        every = λ r i. a.every r (part r i);
      })
    where
      needs_rest :
          (fewer : List Rule)
          → ((r : Rule) → In r fewer → In r rules)
          → needs_json loads float_eq is_zero fewer ≡ true
          → needs_json loads float_eq is_zero rules ≡ true
      needs_rest [] part needs = cc
      needs_rest (x ∷ more) part needs = elim (Bool-cases (is_max_chars x.kind)) [
        | inr looks ↦ needs_some rules x (part x (inl refl)) looks
        | inl short ↦ needs_rest more (λ r i. part r (inr i)) (ground arith)
      ]

  is_empty-append : {A : Type 0} (xs : List A) (x : A) → is_empty (xs ++ (x ∷ [])) ≡ false
  is_empty-append [] x = refl
  is_empty-append (y ∷ xs) x = refl

  checks_step :
      (good b : Bool) (checks : List Check) (c : Check)
      → good ≡ all_passed checks
      → c.passed ≡ some b
      → good && b ≡ all_passed (checks ++ (c ∷ []))
  checks_step good b checks c h passed =
      rw (all_passed-append checks (c ∷ []))
        (rw passed (rw h (ap (λ (x : Bool). all_passed checks && x) (and_alone b))))

  failures_step :
      (good b : Bool) (failures : List Failure) (f : Failure)
      → good ≡ is_empty failures
      → good && b ≡ is_empty (if b then failures else failures ++ (f ∷ []))
  failures_step good true failures f h = sym (and_alone good) ∙ h
  failures_step true false failures f h = sym (is_empty-append failures f)
  failures_step false false failures f h = sym (is_empty-append failures f)

  run_honest :
      (text : Option Text) (parsed : Json) (rules : List Rule) (v : Verdict)
      → v.ok ≡ all_passed v.checks
      → v.ok ≡ is_empty v.failures
      → ((run text parsed rules v).ok ≡ all_passed (run text parsed rules v).checks)
        × ((run text parsed rules v).ok ≡ is_empty (run text parsed rules v).failures)
  unfolding judge_rules
  run_honest text parsed [] v a b = (a, b)
  run_honest text parsed (x ∷ rules) v a b =
      run_honest text parsed rules _
        (checks_step v.ok (test text parsed x) v.checks
          (check_of loads float_eq is_zero (test text parsed x) x) a refl)
        (failures_step v.ok (test text parsed x) v.failures (broken x.kind x.path x.message) b)

  abbrev IsHonest : Verdict → Type 0
  IsHonest v = (v.ok ≡ all_passed v.checks) × (v.ok ≡ is_empty v.failures)

  object_check_failed : (o : Option Rule) → (object_check o).passed ≡ some false
  unfolding object_check
  object_check_failed none = refl
  object_check_failed (some r) = refl

  unreadable-IsHonest : (rules : List Rule) → IsHonest (unreadable loads float_eq is_zero rules)
  unfolding unreadable
  unreadable-IsHonest rules = (rw (object_check_failed (first_object rules)) refl, refl)

  -- A verdict is honest: it accepts exactly when each check that it lists passed, and exactly when it
  -- lists no failure; a rule that was not checked counts as not passed.
  pub judge_honest :
      (text : Option Text) (rules : List Rule)
      → ((judge loads float_eq is_zero text rules).ok
          ≡ all_passed (judge loads float_eq is_zero text rules).checks)
        × ((judge loads float_eq is_zero text rules).ok
            ≡ is_empty (judge loads float_eq is_zero text rules).failures)
  judge_honest text rules = elim (Bool-cases (needs_json loads float_eq is_zero rules)) [
    | inr plain ↦
        subst IsHonest (sym (judge_plain text rules plain)) (run_honest text null rules _ refl refl)
    | inl needs ↦ by_text needs (parsed_object loads float_eq is_zero text) refl
  ]
    where
      by_text :
          needs_json loads float_eq is_zero rules ≡ true
          → (o : Option Json) → parsed_object loads float_eq is_zero text ≡ o
          → IsHonest (judge loads float_eq is_zero text rules)
      by_text needs none e =
          subst IsHonest (sym (judge_unread text rules needs e)) (unreadable-IsHonest rules)
      by_text needs (some value) e =
          subst IsHonest (sym (judge_read text rules value needs e))
            (run_honest text value rules _ refl refl)
