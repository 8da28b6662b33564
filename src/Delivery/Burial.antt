-- ===== src/Delivery/Burial.antt =====
-- What `reconcile` leaves behind (app/app/infrastructure/messaging/durable_delivery.py).
use mathlib.Core.Path.{sym, ◌∙◌, subst}
use mathlib.Core.Option.{some-injective}
use investment_backend.Base.{
  ℕ, ◌+◌, ◌≤◌, ◌≡◌, refl, true, false, not, ◌&&◌, Option, none, some, List, [], ◌∷◌, Dict, lookup,
  lookup-insert, insert, ◌==◌, ==_iff, leb, if◌then◌else◌, arith, Bool-cases, inl, inr,
}
use investment_backend.Base.Exec.{Result, ok, ◌>>=◌, transaction}
use investment_backend.Delivery.Outbox.{
  Message, Outbox, Delivery, DeliveryFault, ErrorCode, is_dead, dead_letter, is_exhausted,
  has_topic, delivering, bury_exhausted, is_unacknowledged, pending, recover_topic, recover_topics,
  reconcile,
}

-- A dead letter that is open stays open.
abbrev StaysDead : Outbox → Outbox → Type 0
StaysDead s s' = (i : ℕ) → is_dead i s ≡ true → is_dead i s' ≡ true

dead_letter-is_dead :
    (i id : ℕ) (code : ErrorCode) (s : Outbox)
    → is_dead i (dead_letter id code s).1 ≡ (if i == id then true else is_dead i s)
unfolding is_dead dead_letter ◌>>=◌
dead_letter-is_dead i id code s =
    rw (lookup-insert i id (record { error_code = code; replayed = false }) s.dead_letters, is_dead)
      (elim (Bool-cases (i == id)) [ inl same ↦ rw same refl | inr other ↦ rw other refl ])

dead_letter-StaysDead :
    (id : ℕ) (code : ErrorCode) (s : Outbox) → StaysDead s (dead_letter id code s).1
dead_letter-StaysDead id code s i h =
    dead_letter-is_dead i id code s
    ∙ elim (Bool-cases (i == id)) [ inl same ↦ rw same refl | inr other ↦ rw other h ]

module _ (p : Delivery) (now : ℕ) where
  bury_true :
      (id : ℕ) (m : Message) (rest : Dict Message) (s : Outbox)
      → is_exhausted p now m && not (is_dead id s) ≡ true
      → bury_exhausted p now ((id, m) ∷ rest) s
        ≡ bury_exhausted p now rest (dead_letter id ErrorCode.delivery_attempts_exhausted s).1
  unfolding bury_exhausted ◌>>=◌ dead_letter
  bury_true id m rest s h = rw h refl

  bury_false :
      (id : ℕ) (m : Message) (rest : Dict Message) (s : Outbox)
      → is_exhausted p now m && not (is_dead id s) ≡ false
      → bury_exhausted p now ((id, m) ∷ rest) s ≡ bury_exhausted p now rest s
  unfolding bury_exhausted ◌>>=◌
  bury_false id m rest s h = rw h refl

  bury_ok : (rows : Dict Message) (s : Outbox) → (bury_exhausted p now rows s).0 ≡ ok tt
  unfolding bury_exhausted ◌>>=◌
  bury_ok [] s = refl
  bury_ok ((id, m) ∷ rest) s = elim (Bool-cases (is_exhausted p now m && not (is_dead id s))) [
    | inl spent ↦ rw (bury_true id m rest s spent) (bury_ok rest _)
    | inr kept ↦ rw (bury_false id m rest s kept) (bury_ok rest s)
  ]

  bury_StaysDead : (rows : Dict Message) (s : Outbox) → StaysDead s (bury_exhausted p now rows s).1
  unfolding bury_exhausted ◌>>=◌
  bury_StaysDead [] s i h = h
  bury_StaysDead ((id, m) ∷ rest) s i h =
      elim (Bool-cases (is_exhausted p now m && not (is_dead id s))) [
        | inl spent ↦ rw (bury_true id m rest s spent) (
            bury_StaysDead rest _ i
              (dead_letter-StaysDead id ErrorCode.delivery_attempts_exhausted s i h))
        | inr kept ↦ rw (bury_false id m rest s kept) (bury_StaysDead rest s i h)
      ]

  -- The first row of a loop is dead after its turn, if it is exhausted.
  bury_first :
      (id : ℕ) (m : Message) (rest : Dict Message) (s : Outbox)
      → is_exhausted p now m ≡ true
      → is_dead id (bury_exhausted p now ((id, m) ∷ rest) s).1 ≡ true
  bury_first id m rest s spent = elim (Bool-cases (is_dead id s)) [
    | inl dead ↦ bury_StaysDead ((id, m) ∷ rest) s id dead
    | inr alive ↦ rw (bury_true id m rest s (rw spent (rw alive refl))) (
        bury_StaysDead rest _ id
          (dead_letter-is_dead id id ErrorCode.delivery_attempts_exhausted s ∙ ground arith))
  ]

  bury_dead :
      (rows : Dict Message) (s : Outbox) (id : ℕ) (m : Message)
      → lookup id rows ≡ some m
      → is_exhausted p now m ≡ true
      → is_dead id (bury_exhausted p now rows s).1 ≡ true
  bury_dead [] s id m e spent = cc
  bury_dead ((k, v) ∷ rest) s id m e spent = elim (Bool-cases (id == k)) [
    | inl same ↦
        let here : lookup id ((k, v) ∷ rest) ≡ some v = rw same refl in
        let row : v ≡ m = some-injective _ _ (sym here ∙ e) in
        subst (λ (j : ℕ). is_dead j (bury_exhausted p now ((k, v) ∷ rest) s).1 ≡ true)
          (sym ((==_iff id k).0 same))
          (bury_first k v rest s
            (subst (λ (x : Message). is_exhausted p now x ≡ true) (sym row) spent))
    | inr other ↦
        let later : lookup id rest ≡ some m =
          (let r : lookup id ((k, v) ∷ rest) ≡ lookup id rest = rw other refl in sym r ∙ e) in
        elim (Bool-cases (is_exhausted p now v && not (is_dead k s))) [
          | inl gone ↦ rw (bury_true k v rest s gone) (bury_dead rest _ id m later spent)
          | inr kept ↦ rw (bury_false k v rest s kept) (bury_dead rest s id m later spent)
        ]
  ]

  -- Either loop of `reconcile` runs to its end and leaves every open dead letter open.
  abbrev Recovers : Result DeliveryFault ℕ × Outbox → Outbox → Type 0
  Recovers r s = (n : ℕ) × (r.0 ≡ ok n) × StaysDead s r.1

  recover_topic-Recovers :
      (topic consumer : ℕ) (rows : Dict Message) (s : Outbox)
      → Recovers (recover_topic p topic consumer now rows s) s
  unfolding recover_topic ◌>>=◌ is_dead dead_letter
  recover_topic-Recovers topic consumer [] s = (0, refl, λ i h. h)
  recover_topic-Recovers topic consumer ((id, m) ∷ rest) s =
      let late = is_unacknowledged p topic consumer now id m s in
      let spent = leb p.max_attempts m.attempt_count in
      elim (Bool-cases late) [
        | inl x ↦ elim (Bool-cases spent) [
          | inl y ↦
              let gone = (dead_letter id ErrorCode.consumer_unacknowledged s).1 in
              let (n, e, stays) = recover_topic-Recovers topic consumer rest gone in
              rw x (
                rw y (
                  rw e (
                    n,
                    refl,
                    λ i h.
                        stays i (dead_letter-StaysDead id ErrorCode.consumer_unacknowledged s i h),
                  )))
          | inr y ↦
              let back : Outbox = record s {
                messages = insert id (record m { status = pending; available_at = 0 }) s.messages;
              } in
              let (n, e, stays) = recover_topic-Recovers topic consumer rest back in
              rw x (rw y (rw e (n + 1, refl, λ i h. stays i h)))
        ]
        | inr x ↦
            let (n, e, stays) = recover_topic-Recovers topic consumer rest s in
            rw x (rw e (n, refl, stays))
      ]

  recover_topics-Recovers :
      (topics : List (ℕ × Option ℕ)) (s : Outbox) → Recovers (recover_topics p now topics s) s
  unfolding recover_topics ◌>>=◌
  recover_topics-Recovers [] s = (0, refl, λ i h. h)
  recover_topics-Recovers ((topic, none) ∷ rest) s = recover_topics-Recovers rest s
  recover_topics-Recovers ((topic, some consumer) ∷ rest) s =
      let (n, e, stays) = recover_topic-Recovers topic consumer s.messages s in
      let (n', e', stays') =
        recover_topics-Recovers rest (recover_topic p topic consumer now s.messages s).1 in
      rw e (rw e' (n + n', refl, λ i h. stays' i (stays i h)))

  reconcile-Recovers :
      (s : Outbox)
      → (n : ℕ) × ((reconcile p now s).0 ≡ ok n)
        × StaysDead (bury_exhausted p now s.messages s).1 (reconcile p now s).1
  unfolding reconcile transaction ◌>>=◌
  reconcile-Recovers s =
      let (n, e, stays) = recover_topics-Recovers p.topics (bury_exhausted p now s.messages s).1 in
      rw (bury_ok s.messages s) (rw e (n, refl, stays))

-- The message waits for a publisher: nobody has it, or the lease of who had it is over.
pub data Waits (now : ℕ) (m : Message) : Type 0 where
  not_taken : m.status ≡ pending → Waits now m
  left_behind :
      (end : ℕ) → m.status ≡ delivering → m.lease_expires_at ≡ some end → end ≤ now → Waits now m

exhausted :
    (p : Delivery) (now : ℕ) (m : Message)
    → has_topic p m ≡ true
    → p.max_attempts ≤ m.attempt_count
    → Waits now m
    → is_exhausted p now m ≡ true
unfolding is_exhausted
exhausted p now m topic spent (not_taken e) =
    let used : leb p.max_attempts m.attempt_count ≡ true = ground arith in
    rw topic (rw used (rw e refl))
exhausted p now m topic spent (left_behind end e lease over) =
    let used : leb p.max_attempts m.attempt_count ≡ true = ground arith in
    let past : leb end now ≡ true = ground arith in rw topic (rw used (rw e (rw lease past)))

-- `reconcile` returns a count, and a message of the publisher's topics that waits for a publisher
-- with as many attempts as are allowed, or more, is an open dead letter after it. A message waits when it
-- is pending, or when it is being delivered under a lease that is over.
pub reconcile_buries :
    (p : Delivery) (now id : ℕ) (m : Message) (s : Outbox)
    → lookup id s.messages ≡ some m
    → has_topic p m ≡ true
    → p.max_attempts ≤ m.attempt_count
    → Waits now m
    → ((n : ℕ) × ((reconcile p now s).0 ≡ ok n)) × (is_dead id (reconcile p now s).1 ≡ true)
reconcile_buries p now id m s found topic spent waits =
    let (n, returns, stays) = reconcile-Recovers p now s in
    (
      (n, returns),
      stays id (bury_dead p now s.messages s id m found (exhausted p now m topic spent waits)),
    )
