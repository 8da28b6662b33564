-- ===== src/Pricing/Notices.antt =====
-- A sequence of notices of one thread, as app/app/application/workbench/runner.py `priced` adds them
-- up: each is compared with the last total that was reported.
use mathlib.Core.Path.{sym, ap, ◌∙◌}
use investment_backend.Base.{◌≡◌, refl, Option, none, some, List, [], ◌∷◌, arith}
use investment_backend.Pricing.Usage.{
  Usage, no_usage, add, Notice, Grew, since-Grew, add-difference, difference, usage_eq, fresh_usage,
  cumulative_of,
}

-- `if cumulative_of(reported) is not None: self.totals[thread_id] = …`
abbrev pub newer : Option Usage → Option Usage → Option Usage
newer (some total) previous = some total
newer none previous = previous

-- What the notices add up to, from the last total that was reported before them.
unfoldable pub billed : Option Usage → List Notice → Usage
unfolding fresh_usage cumulative_of
billed previous [] = no_usage
billed previous (n ∷ rest) =
    add (fresh_usage n previous) (billed (newer (cumulative_of n) previous) rest)

-- The notices report totals that only grow, from the first usage to the last one.
pub data Rising : Usage → List Notice → Usage → Type 0 where
  stop : {u : Usage} → Rising u [] u
  step :
      {u v w : Usage} {n : Notice} {rest : List Notice}
      → cumulative_of n ≡ some v
      → Grew u v
      → Rising v rest w
      → Rising u (n ∷ rest) w

add_assoc : (u v w : Usage) → add (add u v) w ≡ add u (add v w)
unfolding add
add_assoc u v w = usage_eq (omega arith) (omega arith) (omega arith) (omega arith)

add_none : (u : Usage) → add u no_usage ≡ u
unfolding add
add_none u = usage_eq (omega arith) (omega arith) (omega arith) (omega arith)

fresh_known :
    (n : Notice) (u v : Usage)
    → cumulative_of n ≡ some v
    → Grew u v
    → fresh_usage n (some u) ≡ difference v u
unfolding fresh_usage difference
fresh_known n u v e g = rw (e, fresh_usage) (rw (since-Grew v u g) refl)

billed_step :
    (n : Notice) (rest : List Notice) (u v : Usage)
    → cumulative_of n ≡ some v
    → Grew u v
    → add u (billed (some u) (n ∷ rest)) ≡ add v (billed (some v) rest)
unfolding billed
billed_step n rest u v e g = rw (fresh_known n u v e g) (
    rw e (
      sym (add_assoc u (difference v u) (billed (some v) rest))
      ∙ ap (λ (x : Usage). add x (billed (some v) rest)) (add-difference v u g)))

-- While the totals that Codex reports only grow, what is billed is what the last total exceeds the
-- first one by, whichever notices were lost on the way and however often one was repeated.
pub billed_telescopes :
    (u w : Usage) (ns : List Notice) → Rising u ns w → add u (billed (some u) ns) ≡ w
unfolding billed
billed_telescopes u w [] stop = add_none u
billed_telescopes u w (n ∷ rest) (step {v = v} e g more) =
    billed_step n rest u v e g ∙ billed_telescopes v w rest more
