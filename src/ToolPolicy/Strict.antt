-- ===== src/ToolPolicy/Strict.antt =====
-- What the override of a step can do to the tool policy of its expert
-- (app/app/domain/workbench/tool_policy.py).
use investment_backend.Base.{
  ℕ, ◌≤◌, ◌≡◌, refl, Bool, true, false, ◌||◌, ◌&&◌, Option, some, List, [], ◌∷◌, ◌++◌, any, arith,
  if◌then◌else◌,
}
use mathlib.Core.Path.{subst, ap, ◌∙◌}
use investment_backend.Base.Exec.{Result, ok, err}
use investment_backend.ToolPolicy.Rules.{
  Tier, allow, tier_order, Category, command, file_in, file_out, network, other, Tokens, Policy,
  tier_of, Override, Questions, allow_questions, deny_questions, stricter, merge_questions,
  merge_max, and_then, merge_policy, prefix_matches, is_command, is_ask, decide,
}

and_then-ok :
    {E A B : Type 0} (r : Result E A) (f : A → Result E B) (b : B)
    → and_then r f ≡ ok b
    → (a : A) × (r ≡ ok a) × (f a ≡ ok b)
unfolding and_then
and_then-ok (ok a) f b h = (a, refl, h)
and_then-ok (err e) f b h = cc

stricter-order :
    (have : Tier) (want : Option Tier) (t : Tier)
    → stricter have want ≡ ok t
    → tier_order have ≤ tier_order t
unfolding stricter
stricter-order have want t h = ground arith

merge_max-order : (have : ℕ) (want : Option ℕ) (m : ℕ) → merge_max have want ≡ ok m → m ≤ have
unfolding merge_max
merge_max-order have want m h = ground arith

-- How much is denied: questions are let through, or they are not.
abbrev pub questions_order : Questions → ℕ
questions_order allow_questions = 0
questions_order deny_questions = 1

merge_questions-order :
    (have : Questions) (want : Option Questions) (q : Questions)
    → merge_questions have want ≡ ok q
    → questions_order have ≤ questions_order q
unfolding merge_questions
merge_questions-order have want q h = ground arith

-- The second policy asks for no less in any category, and lets through what the first one does
-- and, of commands, what the list adds.
pub record IsStricter (base p : Policy) (more : List Tokens) : Type 0 where
  pub tiers : (c : Category) → tier_order (tier_of base c) ≤ tier_order (tier_of p c)
  pub commands : p.command_allow ≡ base.command_allow ++ more
  pub questions_denied : questions_order base.questions ≤ questions_order p.questions
  pub questions_fewer : p.max_questions ≤ base.max_questions

same_ok : {E A : Type 0} (r : Result E A) (a b : A) → r ≡ ok a → r ≡ ok b → a ≡ b
same_ok r a b h k = cc

module _ (base : Policy) (o : Override) where
  merge_tiers :
      (p : Policy)
      → stricter base.file_change_in_project o.want_in ≡ ok p.file_change_in_project
      → stricter base.file_change_outside o.want_out ≡ ok p.file_change_outside
      → stricter base.command_tier o.want_command ≡ ok p.command_tier
      → stricter base.network_tier o.want_network ≡ ok p.network_tier
      → (c : Category) → tier_order (tier_of base c) ≤ tier_order (tier_of p c)
  unfolding tier_of
  merge_tiers p e1 e2 e3 e4 file_in = stricter-order _ _ _ e1
  merge_tiers p e1 e2 e3 e4 file_out = stricter-order _ _ _ e2
  merge_tiers p e1 e2 e3 e4 command = stricter-order _ _ _ e3
  merge_tiers p e1 e2 e3 e4 network = stricter-order _ _ _ e4
  merge_tiers p e1 e2 e3 e4 other = omega arith

  -- A merge that succeeds gives a policy that is no laxer.
  merge-IsStricter :
      (p : Policy) → merge_policy base (some o) ≡ ok p → IsStricter base p o.more_commands
  unfolding merge_policy
  merge-IsStricter p h =
      let (inside, e1, h1) = and_then-ok _ _ _ h in
      let (outside, e2, h2) = and_then-ok _ _ _ h1 in
      let (cmd, e3, h3) = and_then-ok _ _ _ h2 in
      let (net, e4, h4) = and_then-ok _ _ _ h3 in
      let (qs, e5, h5) = and_then-ok _ _ _ h4 in
      let (most, e6, h6) = and_then-ok _ _ _ h5 in
      subst (λ q. IsStricter base q o.more_commands) (same_ok _ _ _ refl h6)
        (record {
          tiers = merge_tiers _ e1 e2 e3 e4;
          commands = refl;
          questions_denied = merge_questions-order _ _ _ e5;
          questions_fewer = merge_max-order _ _ _ e6;
        })

any-append : {A : Type 0} (f : A → Bool) (xs ys : List A) → any f (xs ++ ys) ≡ any f xs || any f ys
any-append f [] ys = refl
any-append f (x ∷ xs) ys = rw (any-append f xs ys) (ground arith)

chosen-order :
    (is_cmd matched : Bool) (t t' : Tier)
    → tier_order t ≤ tier_order t'
    → tier_order (if is_cmd && is_ask t && matched then allow else t)
      ≤ tier_order (if is_cmd && is_ask t' && matched then allow else t')
unfolding tier_order
chosen-order is_cmd matched t t' h = ground arith

or_false : (a b : Bool) → b ≡ false → a || b ≡ a
or_false a b h = ground arith

-- A policy that is stricter decides no less strictly, unless the command begins as one that the
-- list adds.
decide-IsStricter :
    (base p : Policy) (more : List Tokens) (c : Category) (tokens : Tokens) (after : Bool)
    → IsStricter base p more
    → any (λ q. prefix_matches q tokens) more ≡ false
    → tier_order (decide base c tokens after) ≤ tier_order (decide p c tokens after)
unfolding decide
decide-IsStricter base p more c tokens true h none_added = omega arith
decide-IsStricter base p more c tokens false h none_added =
    let known : Tokens → Bool = λ q. prefix_matches q tokens in
    let same : any known p.command_allow ≡ any known base.command_allow =
      ap (any known) h.commands
      ∙ any-append known base.command_allow more
      ∙ or_false (any known base.command_allow) (any known more) none_added in
    rw same (chosen-order (is_command c) (any known base.command_allow) _ _ (h.tiers c))

-- If a merge succeeds, the policy of the step decides every request at least as strictly as the
-- policy of the expert, except a command that begins with one of the prefixes the step adds; it denies
-- questions where the expert's policy does, and its largest number of questions is no larger.
pub merge-decide_stricter :
    (base : Policy) (o : Override) (p : Policy) (c : Category) (tokens : Tokens) (after : Bool)
    → merge_policy base (some o) ≡ ok p
    → any (λ q. prefix_matches q tokens) o.more_commands ≡ false
    → (tier_order (decide base c tokens after) ≤ tier_order (decide p c tokens after))
      × (questions_order base.questions ≤ questions_order p.questions)
      × (p.max_questions ≤ base.max_questions)
merge-decide_stricter base o p c tokens after h none_added =
    let strict = merge-IsStricter base o p h in
    (
      decide-IsStricter base p o.more_commands c tokens after strict none_added,
      strict.questions_denied,
      strict.questions_fewer,
    )
