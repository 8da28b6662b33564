-- ===== src/ToolPolicy/Grants.antt =====
-- What "allow for this task" covers, from the prefix that is recorded to the requests it answers
-- (`grant_prefix` and `grant_matches` of app/app/domain/workbench/tool_policy.py).
use text.Mathlib.TextEquality.{eq_iff}
use investment_backend.Base.{
  ◌≡◌, refl, Bool, true, ◌&&◌, not, [], ◌∷◌, take, length, is_empty, arith,
}
use investment_backend.ToolPolicy.Rules.{
  Category, command, file_in, file_out, network, other, Tokens, same_tokens, prefix_matches, Grant,
  is_command, grant_prefix, grant_matches,
}

and_both : (a b : Bool) → a && b ≡ true → (a ≡ true) × (b ≡ true)
and_both a b h = (ground arith, ground arith)

same_tokens_refl : (xs : Tokens) → same_tokens xs xs ≡ true
unfolding same_tokens
same_tokens_refl [] = refl
same_tokens_refl (x ∷ xs) = rw ((eq_iff x x).1 refl) (same_tokens_refl xs)

same_tokens_eq : (xs ys : Tokens) → same_tokens xs ys ≡ true → xs ≡ ys
unfolding same_tokens
same_tokens_eq [] [] h = refl
same_tokens_eq [] (y ∷ ys) h = cc
same_tokens_eq (x ∷ xs) [] h = cc
same_tokens_eq (x ∷ xs) (y ∷ ys) h =
    let (first, rest) = and_both _ _ h in
    let e : x ≡ y = (eq_iff x y).0 first in let es : xs ≡ ys = same_tokens_eq xs ys rest in cc

-- The grant that an answer for the whole task records
unfoldable pub grant_of : Category → Tokens → Grant
grant_of c tokens = record { category = c; command_prefix = grant_prefix c tokens }

-- A grant that was given for a request answers the same request the next time, except for a command
-- with no words, which is never answered by a grant.
pub grant_covers_request :
    (c : Category) (tokens : Tokens)
    → grant_matches (grant_of c tokens) c tokens ≡ not (is_command c && is_empty tokens)
unfolding grant_of grant_matches grant_prefix prefix_matches
grant_covers_request file_in tokens = refl
grant_covers_request file_out tokens = refl
grant_covers_request network tokens = refl
grant_covers_request other tokens = refl
grant_covers_request command [] = refl
grant_covers_request command (x ∷ []) = same_tokens_refl (x ∷ [])
grant_covers_request command (x ∷ y ∷ rest) = same_tokens_refl (x ∷ y ∷ [])

-- A command that a grant answers begins with the words the grant was given for, at most two of
-- them, and a grant for a command answers commands only.
pub grant_covers_only :
    (tokens : Tokens) (c : Category) (asked : Tokens)
    → grant_matches (grant_of command tokens) c asked ≡ true
    → (c ≡ command) × (take (length (take 2 tokens)) asked ≡ take 2 tokens)
unfolding grant_of grant_matches grant_prefix prefix_matches
grant_covers_only tokens command asked h = (refl, same_tokens_eq _ _ (and_both _ _ h).1)
grant_covers_only tokens file_in asked h = cc
grant_covers_only tokens file_out asked h = cc
grant_covers_only tokens network asked h = cc
grant_covers_only tokens other asked h = cc
