-- ===== src/Pricing/Tests.antt =====
-- The theorems about usage at concrete counts.
use investment_backend.Base.{
  ℕ, ◌+◌, ◌≡◌, refl, ◌↔◌, true, false, none, some, List, [], ◌∷◌, length, arith,
}
use investment_backend.Pricing.Usage.{
  Usage, add, since, Report, Notice, cumulative_of, Grew, since_iff_add,
}
use investment_backend.Pricing.Notices.{billed, Rising, stop, step, billed_telescopes}
use investment_backend.Pricing.Turns.{
  CallEvent, conversation_usage, AddsUp, conversation_usage-AddsUp,
}

abbrev counts : ℕ → ℕ → ℕ → ℕ → Usage
counts a b c d = record { input = a; cached_input = b; cache_write = c; output = d }

abbrev report : ℕ → ℕ → Report
report input output = record {
  cached_tokens = 0;
  written_tokens = 0;
  input_tokens = input;
  output_tokens = output;
  total_tokens = 0;
}

-- A notice of a call of 4 and 1, on a thread that has used `input` and `output` so far.
abbrev notice : ℕ → ℕ → Notice
notice input output = record { last = some (report 4 1); so_far = some (report input output) }

-- The second notice is lost, the third comes twice.
abbrev heard : List Notice
heard = notice 14 3 ∷ notice 22 5 ∷ notice 22 5 ∷ []

abbrev more_input : Report
more_input = record {
  cached_tokens = 6;
  written_tokens = 7;
  input_tokens = 10;
  output_tokens = 2;
  total_tokens = 12;
}

since_iff_add_example :
    (since (counts 5 2 0 3) (counts 4 2 0 1) ≡ some (counts 1 0 0 2))
    ↔ (counts 5 2 0 3 ≡ add (counts 4 2 0 1) (counts 1 0 0 2))
since_iff_add_example = since_iff_add (counts 5 2 0 3) (counts 4 2 0 1) (counts 1 0 0 2)

grew : (a b c d : ℕ) → Grew (counts a 0 0 b) (counts (a + c) 0 0 (b + d))
grew a b c d = record {
  input_grew = omega arith;
  cached_grew = omega arith;
  written_grew = omega arith;
  output_grew = omega arith;
}

heard-Rising : Rising (counts 10 0 0 2) heard (counts 22 0 0 5)
unfolding cumulative_of
heard-Rising =
    step refl (grew 10 2 4 1) (step refl (grew 14 3 8 2) (step refl (grew 22 5 0 0) stop))

billed_telescopes_example :
    add (counts 10 0 0 2) (billed (some (counts 10 0 0 2)) heard) ≡ counts 22 0 0 5
billed_telescopes_example = billed_telescopes (counts 10 0 0 2) (counts 22 0 0 5) heard heard-Rising

abbrev calls_made : List CallEvent
calls_made =
    (record { turn = 1; noted = none; reported = notice 4 1; priced = true; noted_cost = some 180 })
    ∷ (record {
      turn = 2;
      noted = some (counts 1 0 0 0);
      reported = notice 5 1;
      priced = false;
      noted_cost = none;
    })
    ∷ (record {
      turn = 1;
      noted = none;
      reported = notice 9 2;
      priced = true;
      noted_cost = some 180;
    })
    ∷ []

conversation_usage-AddsUp_example : AddsUp (length calls_made) (conversation_usage calls_made)
conversation_usage-AddsUp_example = conversation_usage-AddsUp calls_made
