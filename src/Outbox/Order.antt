-- ===== src/Outbox/Order.antt =====
-- Every operation of the outbox keeps its events in order: locks, attempts and statuses agree
-- (`outboxPublisher.service.ts`, `outboxRetry.service.ts`).
use meeo_server.Base.{
  ℕ, zero, suc, All, ◌≡◌, ◌≢◌, refl, subst, inl, inr, Option, none, some, true, List, [], ◌∷◌,
  arith, Bool-cases, Option-cases, contains, length,
}
use meeo_server.Base.Result.{ok}
use meeo_server.Orm.{Orm}
use meeo_server.Outbox.Events.{is_published, Event, Line}
use meeo_server.Outbox.Publisher.{
  reset, Queues, Batch, new_event, create_outbox_event, poll_and_publish_batch, retry_failed_event,
}
use meeo_server.Outbox.Batches.{
  IsOrderly, write-IsOrderly, deliver_all-IsOrderly, claim-IsOrderly, find_many-Standing,
}
use meeo_server.Outbox.Rules.{is_orderly, IsOrderlyRow, reset-is_orderly}

-- A new event, a poll of the publisher, or an administrator's retry.
pub data Turn : Type 0 where
  create : ℕ → Option ℕ → Turn
  poll : Queues → (ℕ → ℕ) → ℕ → ℕ → ℕ → Turn
  retry : ℕ → Turn

-- A new event has an attempt.
abbrev pub IsAdmittedTurn : Turn → Type 0
IsAdmittedTurn (Turn.create now max_attempts) = max_attempts ≢ some 0
IsAdmittedTurn _ = Unit

module _ (o : Orm) where
  -- The state after some turns, whether they returned or threw.
  pub take_turns : List Turn → Line o → Line o
  take_turns [] s = s
  take_turns (Turn.create now max_attempts ∷ turns) s =
      take_turns turns (create_outbox_event o now max_attempts s).1
  take_turns (Turn.poll queues draws now publisher size ∷ turns) s =
      take_turns turns (poll_and_publish_batch o queues draws now publisher size s).1
  take_turns (Turn.retry k ∷ turns) s = take_turns turns (retry_failed_event o k s).1

  -- From events that are in order, a poll of the outbox never throws, whichever events the queue of
  -- domain events and the dead letter queue refuse and whatever delays are drawn, and it leaves the events in order: each is locked exactly
  -- while it is PROCESSING, waits only with an attempt left, and is FAILED only when its attempts are
  -- used up.
  pub poll_and_publish_batch-IsOrderly :
      (queues : Queues) (draws : ℕ → ℕ) (now publisher size : ℕ) (s : Line o)
      → IsOrderly o s.events
      → (b : Batch) × (s' : Line o) × (poll_and_publish_batch o queues draws now publisher size s
          ≡ (ok b, s'))
        × IsOrderly o s'.events
  unfolding poll_and_publish_batch
  poll_and_publish_batch-IsOrderly queues draws now publisher size s h =
      let (ids, s1, first, h1) = claim-IsOrderly o now publisher size s h in
      let chosen = λ (e : Event). contains e.id ids in
      let (ds, s2, second, h2) =
        deliver_all-IsOrderly o queues draws now (o.find_many Event chosen s1.events) s1 h1
          (o.find_many-Distinct Event chosen s1.events) (find_many-Standing o chosen s1.events) in
      (record { claimed_count = length ids; deliveries = ds }, s2, ground arith, h2)

  retry_failed_event-IsOrderly :
      (k : ℕ) (s : Line o) → IsOrderly o s.events → IsOrderly o (retry_failed_event o k s).1.events
  unfolding retry_failed_event
  retry_failed_event-IsOrderly k s h = elim (Option-cases (o.find Event k s.events)) [
    | inl e ↦ ground arith
    | inr (e, here) ↦ elim (Bool-cases (is_published e.status)) [
      | inl gone ↦ ground arith
      | inr open_event ↦ ground (
        arith,
        write-IsOrderly o k (reset e) s.events h
            (reset-is_orderly e (subst IsOrderlyRow here (h k))),
      )
    ]
  ]

  new_event-is_orderly :
      (now k : ℕ) (max_attempts : Option ℕ)
      → max_attempts ≢ some 0
      → is_orderly (new_event now k max_attempts) ≡ true
  new_event-is_orderly now k none h = refl
  new_event-is_orderly now k (some zero) h = absurd (h refl)
  new_event-is_orderly now k (some (suc n)) h = ground arith

  create_outbox_event-IsOrderly :
      (now : ℕ) (max_attempts : Option ℕ) (s : Line o)
      → max_attempts ≢ some 0
      → IsOrderly o s.events
      → IsOrderly o (create_outbox_event o now max_attempts s).1.events
  unfolding create_outbox_event
  create_outbox_event-IsOrderly now max_attempts s some_attempt h =
      let k = o.fresh Event s.events in
      write-IsOrderly o k (new_event now k max_attempts) s.events h
        (new_event-is_orderly now k max_attempts some_attempt)

  -- However new events with an attempt, polls and manual retries follow one another, and whatever the
  -- queues refuse, events that are in order stay in order: each is locked exactly while it is
  -- PROCESSING, waits only with an attempt left, and is FAILED only when its attempts are used up.
  pub take_turns-IsOrderly :
      (turns : List Turn) (s : Line o)
      → All IsAdmittedTurn turns
      → IsOrderly o s.events
      → IsOrderly o (take_turns turns s).events
  unfolding take_turns
  take_turns-IsOrderly [] s a h = h
  take_turns-IsOrderly (Turn.create now max_attempts ∷ turns) s (a, as') h =
      take_turns-IsOrderly turns (create_outbox_event o now max_attempts s).1 as'
        (create_outbox_event-IsOrderly now max_attempts s a h)
  take_turns-IsOrderly (Turn.poll queues draws now publisher size ∷ turns) s (a, as') h =
      let (b, s', e, h') = poll_and_publish_batch-IsOrderly queues draws now publisher size s h in
      take_turns-IsOrderly turns (poll_and_publish_batch o queues draws now publisher size s).1 as'
        (rw e h')
  take_turns-IsOrderly (Turn.retry k ∷ turns) s (a, as') h =
      take_turns-IsOrderly turns (retry_failed_event o k s).1 as'
        (retry_failed_event-IsOrderly k s h)
