-- ===== src/Pricing/Usage.antt =====
-- The class `Usage` of app/app/domain/workbench/pricing.py and what is read out of a notice. The
-- counts are natural numbers, as `_count` makes them.
use mathlib.Core.Path.{sym, ap, ◌∙◌, subst}
use investment_backend.Base.{
  ℕ, ◌+◌, ◌-◌, ◌≤◌, ◌≡◌, refl, ◌↔◌, Bool, true, false, ◌&&◌, ◌||◌, Option, none, some, ltb, ◌==◌,
  min, if◌then◌else◌, arith, Bool-cases, inl, inr,
}

pub record Usage : Type 0 where
  pub input : ℕ
  pub cached_input : ℕ
  pub cache_write : ℕ
  pub output : ℕ

-- `Usage()`
abbrev pub no_usage : Usage
no_usage = record { input = 0; cached_input = 0; cache_write = 0; output = 0 }

-- `Usage.total`
unfoldable pub total : Usage → ℕ
total u = u.input + u.cached_input + u.cache_write + u.output

-- `Usage.__add__`
unfoldable pub add : Usage → Usage → Usage
add u v = record {
  input = u.input + v.input;
  cached_input = u.cached_input + v.cached_input;
  cache_write = u.cache_write + v.cache_write;
  output = u.output + v.output;
}

-- `min(…) < 0` of the differences in `Usage.since`
abbrev pub has_shrunk : Usage → Usage → Bool
has_shrunk later earlier =
    ltb later.input earlier.input
    || ltb later.cached_input earlier.cached_input
    || ltb later.cache_write earlier.cache_write
    || ltb later.output earlier.output

-- `more` in `Usage.since`
unfoldable pub difference : Usage → Usage → Usage
difference later earlier = record {
  input = later.input - earlier.input;
  cached_input = later.cached_input - earlier.cached_input;
  cache_write = later.cache_write - earlier.cache_write;
  output = later.output - earlier.output;
}

-- `Usage.since`
unfoldable pub since : Usage → Usage → Option Usage
unfolding difference
since later earlier = if has_shrunk later earlier then none else some (difference later earlier)

-- The counts of one report of Codex, each read by `_count`
pub record Report : Type 0 where
  pub cached_tokens : ℕ
  pub written_tokens : ℕ
  pub input_tokens : ℕ
  pub output_tokens : ℕ
  pub total_tokens : ℕ

-- `everything` of `usage_of`: a report of a total only counts as input.
abbrev pub everything_of : Report → ℕ
everything_of r =
    if r.input_tokens == 0 && r.output_tokens == 0 then r.total_tokens else r.input_tokens

-- `usage_of`; `none` is a report that is no object.
unfoldable pub usage_of : Option Report → Usage
usage_of none = no_usage
usage_of (some r) =
    let everything = everything_of r in
    record {
      input = everything - r.cached_tokens - r.written_tokens;
      cached_input = min r.cached_tokens everything;
      cache_write = min r.written_tokens (everything - r.cached_tokens);
      output = r.output_tokens;
    }

-- The `last` and the `total` of a notice of use
pub record Notice : Type 0 where
  pub last : Option Report
  pub so_far : Option Report

-- `call_of`
unfoldable pub call_of : Notice → Usage
unfolding usage_of
call_of n = usage_of n.last

-- `cumulative_of`
unfoldable pub cumulative_of : Notice → Option Usage
unfolding usage_of
cumulative_of n = elim n.so_far [ none ↦ none | some r ↦ some (usage_of (some r)) ]

-- `total.since(previous)`, once both are known
abbrev pub gained : Option Usage → Option Usage → Option Usage
gained (some total) (some previous) = since total previous
gained _ _ = none

-- `fresh_usage`
unfoldable pub fresh_usage : Notice → Option Usage → Usage
unfolding since call_of cumulative_of
fresh_usage n previous = elim (gained (cumulative_of n) previous) [
  | none ↦ call_of n
  | some more ↦ more
]

pub usage_eq :
    {u v : Usage}
    → u.input ≡ v.input
    → u.cached_input ≡ v.cached_input
    → u.cache_write ≡ v.cache_write
    → u.output ≡ v.output
    → u ≡ v
usage_eq a b c d = λ i. record { input = a i; cached_input = b i; cache_write = c i; output = d i }

-- The four counts of a report do not overlap and leave nothing out: they add up to its input,
-- cached and written tokens included, and its output.
pub total-usage_of : (r : Report) → total (usage_of (some r)) ≡ everything_of r + r.output_tokens
unfolding total usage_of
total-usage_of r = omega arith

-- Every count of the second usage is at least that of the first.
pub record Grew (earlier later : Usage) : Type 0 where
  pub input_grew : earlier.input ≤ later.input
  pub cached_grew : earlier.cached_input ≤ later.cached_input
  pub written_grew : earlier.cache_write ≤ later.cache_write
  pub output_grew : earlier.output ≤ later.output

pub has_shrunk-Grew :
    (later earlier : Usage) → has_shrunk later earlier ≡ false → Grew earlier later
has_shrunk-Grew later earlier h = record {
  input_grew = ground arith;
  cached_grew = ground arith;
  written_grew = ground arith;
  output_grew = ground arith;
}

pub Grew-has_shrunk :
    (later earlier : Usage) → Grew earlier later → has_shrunk later earlier ≡ false
Grew-has_shrunk later earlier g =
    let a = g.input_grew in
    let b = g.cached_grew in let c = g.written_grew in let d = g.output_grew in ground arith

Grew-add : (earlier more : Usage) → Grew earlier (add earlier more)
unfolding add
Grew-add earlier more = record {
  input_grew = omega arith;
  cached_grew = omega arith;
  written_grew = omega arith;
  output_grew = omega arith;
}

difference-add : (earlier more : Usage) → difference (add earlier more) earlier ≡ more
unfolding difference add
difference-add earlier more = usage_eq (omega arith) (omega arith) (omega arith) (omega arith)

pub add-difference :
    (later earlier : Usage) → Grew earlier later → add earlier (difference later earlier) ≡ later
unfolding difference add
add-difference later earlier g =
    let a = g.input_grew in
    let b = g.cached_grew in
    let c = g.written_grew in
    let d = g.output_grew in usage_eq (omega arith) (omega arith) (omega arith) (omega arith)

-- A total that has grown gained the difference.
pub since-Grew :
    (later earlier : Usage)
    → Grew earlier later
    → since later earlier ≡ some (difference later earlier)
unfolding since
since-Grew later earlier g = rw (Grew-has_shrunk later earlier g) refl

since-shrunk :
    (later earlier : Usage) → has_shrunk later earlier ≡ true → since later earlier ≡ none
unfolding since
since-shrunk later earlier h = rw h refl

-- The difference of two running totals is what added to the earlier one gives the later one, and it
-- is `None` exactly when there is no such usage.
pub since_iff_add :
    (later earlier more : Usage) → (since later earlier ≡ some more) ↔ (later ≡ add earlier more)
since_iff_add later earlier more = (
  λ h. elim (Bool-cases (has_shrunk later earlier)) [
    | inl shrunk ↦ cc (since-shrunk later earlier shrunk)
    | inr grown ↦
        let g = has_shrunk-Grew later earlier grown in
        let same : difference later earlier ≡ more = cc (since-Grew later earlier g) in
        sym (add-difference later earlier g) ∙ ap (add earlier) same
  ],
  λ e.
      subst (λ l. since l earlier ≡ some more) (sym e)
        (since-Grew (add earlier more) earlier (Grew-add earlier more)
          ∙ ap some (difference-add earlier more)),
)
