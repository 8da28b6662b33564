-- ===== src/Store/Closed.antt =====
-- A closed interaction never changes: the queries that write interactions touch pending rows and
-- new rows only.
use investment_backend.Base.{
  ℕ, ◌≡◌, Bool, true, false, ◌&&◌, some, inl, inr, Dict, lookup, insert, lookup-insert,
  update_where, [], ◌∷◌, opt_eq, arith, ◌==◌, ==_iff, Bool-cases, Option-cases, if◌then◌else◌, ◌∙◌,
  ap, sym,
}
use investment_backend.Base.Exec.{◌>>=◌}
use investment_backend.Base.Exec.Respects.{IsPreorder, Respects}
use investment_backend.States.{TaskState}
use investment_backend.Store.Rows.{Interaction, Response, cancelled, task_ended}
use investment_backend.Store.Queries.{
  insert_interaction, consume_interaction, cancel_pending_interactions, is_pending, can_take,
}
use investment_backend.Store.Frame.{OnInteractions}

-- Every row that is not pending is there as it was.
pub record KeepsClosed (d e : Dict Interaction) : Type 0 where
  pub closed :
      (id : ℕ) (row : Interaction)
      → lookup id d ≡ some row
      → is_pending row.status ≡ false
      → lookup id e ≡ some row

pub KeepsClosed-preorder : IsPreorder KeepsClosed
KeepsClosed-preorder = record {
  reflexive = λ d. record { closed = λ id row found shut. found };
  transitive = λ d e f p q. record {
    closed = λ id row found shut. q.closed id row (p.closed id row found shut) shut;
  };
}

-- Writing under a key that was missing, or whose row was pending.
KeepsClosed-insert :
    (k : ℕ) (new : Interaction) (d : Dict Interaction)
    → ((row : Interaction) → lookup k d ≡ some row → is_pending row.status ≡ true)
    → KeepsClosed d (insert k new d)
KeepsClosed-insert k new d pending = record {
  closed = λ id row found shut. elim (Bool-cases (id == k)) [
    | inl same ↦ absurd (clash id row found shut ((==_iff id k).0 same))
    | inr other ↦
        lookup-insert id k new d
        ∙ ap (λ (b : Bool). if b then some new else lookup id d) other
        ∙ found
  ];
}
  where
    clash :
        (id : ℕ) (row : Interaction)
        → lookup id d ≡ some row
        → is_pending row.status ≡ false
        → id ≡ k
        → ⊥
    clash id row found shut same =
        cc (pending row (ap (λ (x : ℕ). lookup x d) (sym same) ∙ found), shut)

pub insert_interaction-KeepsClosed :
    (id : ℕ) (i : Interaction) → Respects (OnInteractions KeepsClosed) (insert_interaction id i)
unfolding insert_interaction ◌>>=◌
insert_interaction-KeepsClosed id i = record {
  at = λ s. elim (Option-cases (lookup id s.interactions)) [
    | inl new ↦
        rw new (record {
          tables = KeepsClosed-insert id i s.interactions (λ row there. cc (new, there));
        })
    | inr (row, taken) ↦
        rw taken (record { tables = KeepsClosed-preorder.reflexive s.interactions })
  ];
}

pub consume_interaction-KeepsClosed :
    (id : ℕ) (r : Response) (now : ℕ)
    → Respects (OnInteractions KeepsClosed) (consume_interaction id r now)
unfolding consume_interaction ◌>>=◌
consume_interaction-KeepsClosed id r now = record {
  at = λ s. elim (Option-cases (lookup id s.interactions)) [
    | inl new ↦ rw new (record { tables = KeepsClosed-preorder.reflexive s.interactions })
    | inr (row, there) ↦ rw there (elim (Bool-cases (can_take now (lookup id s.interactions))) [
      | inl open_now ↦ rw open_now (record {
        tables =
            KeepsClosed-insert id _ s.interactions
              (λ x found. ground (arith, there, found, open_now));
      })
      | inr shut ↦ rw shut (record { tables = KeepsClosed-preorder.reflexive s.interactions })
    ])
  ];
}

update_pending :
    (p : Interaction → Bool) (f : Interaction → Interaction) (id : ℕ) (row : Interaction)
    (d : Dict Interaction)
    → lookup id d ≡ some row
    → p row ≡ false
    → lookup id (update_where p f d) ≡ some row
update_pending p f id row [] found no_match = found
update_pending p f id row ((j, w) ∷ d) found no_match =
    ground (arith, λ (x : lookup id d ≡ some row). update_pending p f id row d x no_match)

pub cancel_pending_interactions-KeepsClosed :
    (task : ℕ) (ended : TaskState)
    → Respects (OnInteractions KeepsClosed) (cancel_pending_interactions task ended)
unfolding cancel_pending_interactions ◌>>=◌
cancel_pending_interactions-KeepsClosed task ended = record {
  at = λ s. record {
    tables = record {
      closed = λ id row found shut.
          update_pending (λ i. opt_eq i.task_id (some task) && is_pending i.status)
            (λ i. record i { status = cancelled; response = some (task_ended ended) }) id row
            s.interactions found (ground (arith, shut));
    };
  };
}
