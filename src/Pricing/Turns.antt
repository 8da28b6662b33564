-- ===== src/Pricing/Turns.antt =====
-- `conversation_usage` of app/app/domain/workbench/pricing.py: what a conversation used and cost, by
-- turns and in all. The model's name, the prices shown beside the totals and the times are left out.
use mathlib.Core.Path.{subst}
use investment_backend.Base.{
  ℕ, ◌+◌, ◌≡◌, refl, Bool, Option, none, some, List, [], ◌∷◌, length, ◌==◌, if◌then◌else◌, arith,
  inl, inr, Bool-cases,
}
use investment_backend.Pricing.Usage.{Usage, no_usage, add, usage_eq, Notice, call_of}

-- A usage event: its turn, the usage and the cost that were noted with it, and what Codex reported.
pub record CallEvent : Type 0 where
  pub turn : ℕ
  pub noted : Option Usage
  pub reported : Notice
  pub priced : Bool
  pub noted_cost : Option ℕ

-- `usage`
unfoldable pub usage_in : CallEvent → Usage
usage_in e = elim e.noted [ none ↦ call_of e.reported | some u ↦ u ]

-- `spent`
unfoldable pub spent_in : CallEvent → Option ℕ
spent_in e = if e.priced then e.noted_cost else none

pub record Turn : Type 0 where
  pub turn_id : ℕ
  pub calls : ℕ
  pub usage : Usage
  pub cost : Option ℕ

-- A sum is not known when one of its parts is not.
abbrev pub plus_cost : Option ℕ → Option ℕ → Option ℕ
plus_cost (some a) (some b) = some (a + b)
plus_cost _ _ = none

-- `turns.setdefault(…)` and what the loop then adds to the turn
unfoldable pub note_turn : ℕ → Usage → Option ℕ → List Turn → List Turn
note_turn id u spent [] =
    (record { turn_id = id; calls = 1; usage = add no_usage u; cost = plus_cost (some 0) spent })
    ∷ []
note_turn id u spent (t ∷ rest) =
    let later = note_turn id u spent rest in
    if id == t.turn_id
    then (record t { calls = t.calls + 1; usage = add t.usage u; cost = plus_cost t.cost spent })
      ∷ rest
    else t ∷ later

pub record Totals : Type 0 where
  pub turns : List Turn
  pub everything : Usage
  pub cost : Option ℕ

-- One turn of the loop
unfoldable pub note_call : CallEvent → Totals → Totals
unfolding usage_in spent_in note_turn
note_call e s = record {
  turns = note_turn e.turn (usage_in e) (spent_in e) s.turns;
  everything = add s.everything (usage_in e);
  cost = plus_cost s.cost (spent_in e);
}

unfoldable pub note_calls : List CallEvent → Totals → Totals
unfolding note_call
note_calls [] s = s
note_calls (e ∷ rest) s = note_calls rest (note_call e s)

-- The totals before the first event
abbrev pub empty_totals : Totals
empty_totals = record { turns = []; everything = no_usage; cost = some 0 }

-- `conversation_usage`
unfoldable pub conversation_usage : List CallEvent → Totals
unfolding note_calls
conversation_usage events = note_calls events empty_totals

-- The turns added up.
abbrev pub usage_of_turns : List Turn → Usage
usage_of_turns [] = no_usage
usage_of_turns (t ∷ ts) = add t.usage (usage_of_turns ts)

abbrev pub cost_of_turns : List Turn → Option ℕ
cost_of_turns [] = some 0
cost_of_turns (t ∷ ts) = plus_cost t.cost (cost_of_turns ts)

-- `sum(t["calls"] for t in turns.values())`
abbrev pub calls_of_turns : List Turn → ℕ
calls_of_turns [] = 0
calls_of_turns (t ∷ ts) = t.calls + calls_of_turns ts

plus_cost_swap : (a b c : Option ℕ) → plus_cost (plus_cost a c) b ≡ plus_cost (plus_cost a b) c
plus_cost_swap a b c = ground arith

plus_cost_assoc : (a b c : Option ℕ) → plus_cost a (plus_cost b c) ≡ plus_cost (plus_cost a b) c
plus_cost_assoc a b c = ground arith

plus_cost_first : (c : Option ℕ) → plus_cost (plus_cost (some 0) c) (some 0) ≡ plus_cost (some 0) c
plus_cost_first c = ground arith

cost-note_turn :
    (id : ℕ) (u : Usage) (c : Option ℕ) (ts : List Turn)
    → cost_of_turns (note_turn id u c ts) ≡ plus_cost (cost_of_turns ts) c
unfolding note_turn
cost-note_turn id u c [] = plus_cost_first c
cost-note_turn id u c (t ∷ ts) = elim (Bool-cases (id == t.turn_id)) [
  | inl same ↦ rw same (plus_cost_swap t.cost (cost_of_turns ts) c)
  | inr other ↦
      rw other (rw (cost-note_turn id u c ts) (plus_cost_assoc t.cost (cost_of_turns ts) c))
]

calls-note_turn :
    (id : ℕ) (u : Usage) (c : Option ℕ) (ts : List Turn)
    → calls_of_turns (note_turn id u c ts) ≡ calls_of_turns ts + 1
unfolding note_turn
calls-note_turn id u c [] = refl
calls-note_turn id u c (t ∷ ts) = elim (Bool-cases (id == t.turn_id)) [
  | inl same ↦ rw same (omega arith)
  | inr other ↦ rw other (omega (arith, calls-note_turn id u c ts))
]

usage-note_turn :
    (id : ℕ) (u : Usage) (c : Option ℕ) (ts : List Turn)
    → usage_of_turns (note_turn id u c ts) ≡ add (usage_of_turns ts) u
unfolding note_turn add
usage-note_turn id u c [] = usage_eq (omega arith) (omega arith) (omega arith) (omega arith)
usage-note_turn id u c (t ∷ ts) = elim (Bool-cases (id == t.turn_id)) [
  | inl same ↦ rw same (usage_eq (omega arith) (omega arith) (omega arith) (omega arith))
  | inr other ↦ rw other (
      rw (usage-note_turn id u c ts)
        (usage_eq (omega arith) (omega arith) (omega arith) (omega arith)))
]

-- The totals agree with their turns, after the number of calls.
pub record AddsUp (calls : ℕ) (s : Totals) : Type 0 where
  pub usage_adds : usage_of_turns s.turns ≡ s.everything
  pub cost_adds : cost_of_turns s.turns ≡ s.cost
  pub calls_add : calls_of_turns s.turns ≡ calls

note_call-AddsUp :
    (n : ℕ) (e : CallEvent) (s : Totals) → AddsUp n s → AddsUp (n + 1) (note_call e s)
unfolding note_call
note_call-AddsUp n e s h = record {
  usage_adds = rw (usage-note_turn e.turn (usage_in e) (spent_in e) s.turns, h.usage_adds) refl;
  cost_adds = rw (cost-note_turn e.turn (usage_in e) (spent_in e) s.turns, h.cost_adds) refl;
  calls_add = rw (calls-note_turn e.turn (usage_in e) (spent_in e) s.turns, h.calls_add) refl;
}

note_calls-AddsUp :
    (n : ℕ) (es : List CallEvent) (s : Totals)
    → AddsUp n s
    → AddsUp (n + length es) (note_calls es s)
unfolding note_calls
note_calls-AddsUp n [] s h = subst (λ (m : ℕ). AddsUp m s) (omega arith) h
note_calls-AddsUp n (e ∷ es) s h =
    subst (λ (m : ℕ). AddsUp m (note_calls es (note_call e s))) (omega arith)
      (note_calls-AddsUp (n + 1) es (note_call e s) (note_call-AddsUp n e s h))

-- The page's totals are those of its turns: the usage of the turns adds up to the usage of the
-- conversation, their calls to the number of events, and their costs to the cost of the
-- conversation, which is unknown exactly when the cost of some turn is.
pub conversation_usage-AddsUp :
    (events : List CallEvent) → AddsUp (length events) (conversation_usage events)
unfolding conversation_usage
conversation_usage-AddsUp events =
    subst (λ (m : ℕ). AddsUp m (note_calls events empty_totals)) (omega arith)
      (note_calls-AddsUp 0 events empty_totals
        (record { usage_adds = refl; cost_adds = refl; calls_add = refl }))
