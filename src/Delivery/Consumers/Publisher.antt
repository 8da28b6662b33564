-- ===== src/Delivery/Consumers/Publisher.antt =====
-- What the transactions of `DurableDelivery` mean for the consumers, for the step `publish` of `System`.
use mathlib.Core.Path.{sym, ap, ◌∙◌, subst}
use investment_backend.Base.{
  ℕ, ◌+◌, ◌≡◌, refl, Bool, true, false, not, ◌&&◌, Option, none, some, some-injective, List, [],
  ◌∷◌, Dict, lookup, lookup-insert, ne_of_missing, leb, ◌==◌, ==_iff, Bool-cases, inl, inr, arith,
}
use investment_backend.Base.Exec.{Result, ok, err, pure, when, ◌>>=◌, transaction, undo}
use investment_backend.Base.Exec.Respects.{
  IsPreorder, Respects, Respects-pure, Respects-when, Respects-gets, >>=_at,
}
use investment_backend.Delivery.Outbox.{
  Message, DeadLetter, has_topic, Outbox, Delivery, Action, DeliveryFault, ErrorCode, pending,
  put_message, leased, first_due, claim_delivery, dead_letter, finished, finish_delivery,
  bury_exhausted, recover_topic, recover_topics, reconcile, revived, replay, holds_lease,
}
use investment_backend.Delivery.Leases.{
  IsTable, IsTable-insert, first_due-Claimable, claimed_row, no_row,
}
use investment_backend.Delivery.Consumers.System.{Home, KeepsHomes}

-- Messages keep topic and key, the inbox and the leases stay, and no key comes to stand twice.
pub record Fits (s s' : Outbox) : Type 0 where
  pub keeps : KeepsHomes s s'
  pub table : IsTable s.messages → IsTable s'.messages

pub Fits-preorder : IsPreorder Fits
Fits-preorder = record {
  reflexive = λ s. record {
    keeps = record { homes = λ id m h. h; inbox_same = refl; executions_same = refl };
    table = λ t. t;
  };
  transitive = λ s t u a b. record {
    keeps = record {
      homes = λ id m h. b.keeps.homes id m (a.keeps.homes id m h);
      inbox_same = b.keeps.inbox_same ∙ a.keeps.inbox_same;
      executions_same = b.keeps.executions_same ∙ a.keeps.executions_same;
    };
    table = λ t. b.table (a.table t);
  };
}

-- The rest of a block starts in a store that the first part fits.
Fits-bind :
    {A B : Type 0} (m : Action A) (f : A → Action B) (s : Outbox)
    → Fits s (m s).1
    → ((a : A) (t : Outbox) → Fits s t → Fits t (f a t).1)
    → Fits s ((m >>= f) s).1
Fits-bind m f s h k =
    >>=_at Fits-preorder m f s h
      (λ a t e. k a t (subst (Fits s) (ap (λ (x : Result DeliveryFault _ × Outbox). x.1) e) h))

dead_letter-Fits : (id : ℕ) (code : ErrorCode) (s : Outbox) → Fits s (dead_letter id code s).1
unfolding dead_letter ◌>>=◌
dead_letter-Fits id code s = record {
  keeps = record {
    homes = λ n m h. record { row = h.row; found = h.found; topic = h.topic; key = h.key };
    inbox_same = refl;
    executions_same = refl;
  };
  table = λ t. t;
}

-- A row is written over one of the same topic and key.
put_message-Fits : (id : ℕ) (m : Message) (s : Outbox) → Home s id m → Fits s (put_message id m s).1
unfolding ◌>>=◌
put_message-Fits id m s h = record {
  keeps = record { homes = still_home; inbox_same = refl; executions_same = refl };
  table = IsTable-insert id m s.messages;
}
  where
    still_home : (n : ℕ) (x : Message) → Home s n x → Home (put_message id m s).1 n x
    still_home n x g = elim (Bool-cases (n == id)) [
      | inl same ↦
          let rows : h.row ≡ g.row = some-injective h.row g.row (
            sym h.found
            ∙ ap (λ (k : ℕ). lookup k s.messages) (sym ((==_iff n id).0 same))
            ∙ g.found) in
          record {
            row = m;
            found = lookup-insert n id m s.messages ∙ rw same refl;
            topic = sym h.topic ∙ ap (λ (r : Message). r.topic) rows ∙ g.topic;
            key = sym h.key ∙ ap (λ (r : Message). r.aggregate_key) rows ∙ g.key;
          }
      | inr other ↦ record {
        row = g.row;
        found = lookup-insert n id m s.messages ∙ rw other g.found;
        topic = g.topic;
        key = g.key;
      }
    ]

same_row :
    (id : ℕ) (m row : Message) (s : Outbox)
    → lookup id s.messages ≡ some row
    → row.topic ≡ m.topic
    → row.aggregate_key ≡ m.aggregate_key
    → Home s id m
same_row id m row s found topic key = record { row = row; found = found; topic = topic; key = key }

claim_delivery-Fits :
    (p : Delivery) (owner now : ℕ) (s : Outbox)
    → IsTable s.messages
    → Fits s (claim_delivery p owner now s).1
unfolding leased ◌>>=◌
claim_delivery-Fits p owner now s h = by_row (first_due p now s s.messages) refl
  where
    by_row :
        (o : Option (ℕ × Message))
        → first_due p now s s.messages ≡ o
        → Fits s (claim_delivery p owner now s).1
    by_row none e = rw (no_row p owner now s e) (Fits-preorder.reflexive s)
    by_row (some (k, v)) e =
        let c = first_due-Claimable p now k s s.messages v h e in
        rw (claimed_row p owner now s (k, v) e) (
          put_message-Fits k (leased p owner now v) s
            (same_row k (leased p owner now v) v s c.found refl refl))

finish_delivery-Fits :
    (p : Delivery) (id now : ℕ) (claimed : Message) (error : Option ℕ) (s : Outbox)
    → Fits s (finish_delivery p id claimed error now s).1
unfolding finish_delivery finished transaction ◌>>=◌ dead_letter
finish_delivery-Fits p id now claimed error s = by_row (lookup id s.messages) refl
  where
    put :
        (row : Message)
        → lookup id s.messages ≡ some row
        → Fits s (put_message id (finished now claimed error row) s).1
    put row found = put_message-Fits id _ s (same_row id _ row s found refl refl)

    by_error :
        (row : Message)
        → lookup id s.messages ≡ some row
        → (e : Option ℕ) → error ≡ e
        → holds_lease now claimed row ≡ true
        → Fits s (finish_delivery p id claimed error now s).1
    by_error row found none same held = rw found (
        rw held (
          rw same (
            subst (λ (e : Option ℕ). Fits s (put_message id (finished now claimed e row) s).1) same
              (put row found))))
    by_error row found (some e) same held =
        elim (Bool-cases (leb p.max_attempts claimed.attempt_count)) [
          | inl last ↦ rw found (
              rw held (
                rw same (
                  rw last (
                    Fits-preorder.transitive s
                      (put_message id (finished now claimed (some e) row) s).1 _
                      (subst
                        (λ (x : Option ℕ). Fits s (put_message id (finished now claimed x row) s).1)
                        same (put row found))
                      (dead_letter-Fits id (ErrorCode.publisher_error e) _)))))
          | inr more ↦ rw found (
              rw held (
                rw same (
                  rw more (
                    subst
                      (λ (x : Option ℕ). Fits s (put_message id (finished now claimed x row) s).1)
                      same (put row found)))))
        ]

    by_row :
        (o : Option Message)
        → lookup id s.messages ≡ o
        → Fits s (finish_delivery p id claimed error now s).1
    by_row none e = rw e (Fits-preorder.reflexive s)
    by_row (some row) e = elim (Bool-cases (holds_lease now claimed row)) [
      | inl held ↦ by_error row e error refl held
      | inr lost ↦ rw e (rw lost (Fits-preorder.reflexive s))
    ]

-- Rows of the table as they stood when a loop began
abbrev HasHomes : Outbox → Dict Message → Type 0
HasHomes s [] = Unit {0}
HasHomes s ((id, m) ∷ rest) = Home s id m × HasHomes s rest

HasHomes-Fits : (s t : Outbox) (rows : Dict Message) → Fits s t → HasHomes s rows → HasHomes t rows
HasHomes-Fits s t [] f h = tt
HasHomes-Fits s t ((id, m) ∷ rest) f h = (f.keeps.homes id m h.0, HasHomes-Fits s t rest f h.1)

Respects-dead_letter : (id : ℕ) (code : ErrorCode) → Respects Fits (dead_letter id code)
Respects-dead_letter id code = record { at = dead_letter-Fits id code }

bury_exhausted-Fits :
    (p : Delivery) (now : ℕ) (rows : Dict Message) → Respects Fits (bury_exhausted p now rows)
unfolding bury_exhausted
bury_exhausted-Fits p now [] = Respects-pure Fits-preorder tt
bury_exhausted-Fits p now ((id, m) ∷ rest) = record {
  at = λ s. Fits-bind _ _ s ((Respects-gets Fits-preorder _).at s) (λ dead t f.
      Fits-bind _ _ t
        ((Respects-when Fits-preorder _ _
            (Respects-dead_letter id ErrorCode.delivery_attempts_exhausted)).at
          t)
        (λ _ u g. (bury_exhausted-Fits p now rest).at u));
}

when_put-Fits :
    (b : Bool) (id : ℕ) (m : Message) (s : Outbox)
    → Home s id m
    → Fits s (when b (put_message id (record m { status = pending; available_at = 0 })) s).1
unfolding ◌>>=◌
when_put-Fits true id m s home =
    put_message-Fits id _ s (same_row id _ home.row s home.found home.topic home.key)
when_put-Fits false id m s home = Fits-preorder.reflexive s

recover_topic-Fits :
    (p : Delivery) (topic consumer now : ℕ) (rows : Dict Message) (s : Outbox)
    → HasHomes s rows
    → Fits s (recover_topic p topic consumer now rows s).1
unfolding recover_topic
recover_topic-Fits p topic consumer now [] s h = (Respects-pure Fits-preorder 0).at s
recover_topic-Fits p topic consumer now ((id, m) ∷ rest) s h =
    Fits-bind _ _ s ((Respects-gets Fits-preorder _).at s) (λ late t f.
      Fits-bind _ _ t
        ((Respects-when Fits-preorder _ _
            (Respects-dead_letter id ErrorCode.consumer_unacknowledged)).at
          t)
        (λ _ u g.
          let here =
            HasHomes-Fits t u ((id, m) ∷ rest) g (HasHomes-Fits s t ((id, m) ∷ rest) f h) in
          Fits-bind _ _ u
            (when_put-Fits (late && not (leb p.max_attempts m.attempt_count)) id m u here.0)
            (λ _ v k.
              Fits-bind _ _ v
                (recover_topic-Fits p topic consumer now rest v (HasHomes-Fits u v rest k here.1))
                (λ count w l. (Respects-pure Fits-preorder _).at w))))

table-HasHomes : (s : Outbox) → IsTable s.messages → HasHomes s s.messages
table-HasHomes s h = all s.messages h (λ id m e. same_row id m m s e refl refl)
  where
    all :
        (rows : Dict Message)
        → IsTable rows
        → ((id : ℕ) (m : Message) → lookup id rows ≡ some m → Home s id m)
        → HasHomes s rows
    all [] h f = tt
    all ((k, v) ∷ rest) h f = (
      f k v (ground arith),
      all rest h.1 (λ id m e. let apart = ne_of_missing id k rest h.0 e in f id m (ground arith)),
    )

recover_topics-Fits :
    (p : Delivery) (now : ℕ) (topics : List (ℕ × Option ℕ)) (s : Outbox)
    → IsTable s.messages
    → Fits s (recover_topics p now topics s).1
unfolding recover_topics ◌>>=◌
recover_topics-Fits p now [] s h = Fits-preorder.reflexive s
recover_topics-Fits p now ((topic, none) ∷ rest) s h = recover_topics-Fits p now rest s h
recover_topics-Fits p now ((topic, some consumer) ∷ rest) s h =
    let first = recover_topic-Fits p topic consumer now s.messages s (table-HasHomes s h) in
    Fits-bind (recover_topic p topic consumer now s.messages)
      (λ count. do more ← recover_topics p now rest; pure (count + more)) s first
      (λ count t f.
        Fits-bind (recover_topics p now rest) (λ more. pure (count + more)) t
          (recover_topics-Fits p now rest t (f.table h)) (λ more u g. Fits-preorder.reflexive u))

undo-Fits :
    {A : Type 0} (r : Result DeliveryFault A) (s t : Outbox) → Fits s t → Fits s (undo r s t).1
undo-Fits (ok a) s t f = f
undo-Fits (err e) s t f = Fits-preorder.reflexive s

reconcile-Fits :
    (p : Delivery) (now : ℕ) (s : Outbox) → IsTable s.messages → Fits s (reconcile p now s).1
unfolding reconcile transaction ◌>>=◌
reconcile-Fits p now s h = undo-Fits _ s _ (
    Fits-bind (bury_exhausted p now s.messages) (λ _. recover_topics p now p.topics) s
      ((bury_exhausted-Fits p now s.messages).at s)
      (λ _ t f. recover_topics-Fits p now p.topics t (f.table h)))

replay-Fits : (p : Delivery) (id : ℕ) (s : Outbox) → Fits s (replay p id s).1
unfolding replay revived transaction ◌>>=◌
replay-Fits p id s = by_row (lookup id s.messages) refl
  where
    by_letter :
        (row : Message)
        → lookup id s.messages ≡ some row
        → has_topic p row ≡ true
        → (o : Option DeadLetter) → lookup id s.dead_letters ≡ o
        → Fits s (replay p id s).1
    by_letter row e topic none d = rw e (rw topic (rw d (Fits-preorder.reflexive s)))
    by_letter row e topic (some letter) d = elim (Bool-cases letter.replayed) [
      | inl again ↦ rw e (rw topic (rw d (rw again (Fits-preorder.reflexive s))))
      | inr open_entry ↦
          let f =
            put_message-Fits id (revived row) s (same_row id (revived row) row s e refl refl) in
          let k = f.keeps in
          rw e (
            rw topic (
              rw d (
                rw open_entry (record {
                  keeps = record {
                    homes = λ n m h.
                        let g = k.homes n m h in
                        record { row = g.row; found = g.found; topic = g.topic; key = g.key };
                    inbox_same = refl;
                    executions_same = refl;
                  };
                  table = f.table;
                }))))
    ]

    by_row : (o : Option Message) → lookup id s.messages ≡ o → Fits s (replay p id s).1
    by_row none e = rw e (Fits-preorder.reflexive s)
    by_row (some row) e = elim (Bool-cases (has_topic p row)) [
      | inr other ↦ rw e (rw other (Fits-preorder.reflexive s))
      | inl topic ↦ by_letter row e topic (lookup id s.dead_letters) refl
    ]

-- Every transaction of `DurableDelivery`, whether it returns or raises, is for the consumers a step
-- that keeps the topic and the key of each message and leaves the inbox and the leases of the
-- consumers alone; and no message comes to stand twice in the table.
pub publisher-Fits :
    (p : Delivery) (owner now id : ℕ) (claimed : Message) (error : Option ℕ) (s : Outbox)
    → IsTable s.messages
    → Fits s (claim_delivery p owner now s).1
      × Fits s (finish_delivery p id claimed error now s).1
      × Fits s (reconcile p now s).1
      × Fits s (replay p id s).1
publisher-Fits p owner now id claimed error s h = (
  claim_delivery-Fits p owner now s h,
  finish_delivery-Fits p id now claimed error s,
  reconcile-Fits p now s h,
  replay-Fits p id s,
)
