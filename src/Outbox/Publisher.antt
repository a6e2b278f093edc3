-- ===== src/Outbox/Publisher.antt =====
-- `src/modules/outbox/services/outboxPublisher.service.ts`. The queues are a parameter: which events
-- they accept; so is `Math.random()`, in millionths, for each event of a batch.
use meeo_server.Base.{
  ℕ, zero, suc, Option, none, some, Bool, true, false, ◌&&◌, List, [], ◌∷◌, length, contains, ◌==◌,
  leb, if◌then◌else◌,
}
use meeo_server.Base.Result.{ok, err, ◌>>=◌, ◌>>◌, pure, gets, or_raise, raise_if, for_each}
use meeo_server.Orm.{Orm}
use meeo_server.Outbox.Events.{
  EventStatus, is_pending, is_published, Event, OutboxError, OutboxService, update_event,
  update_events,
}
use meeo_server.Outbox.Retry.{calculate_next_retry_date, unlock_stale_events}

-- `status: "PENDING", OR: [{ nextRetryAt: null }, { nextRetryAt: { lte: now } }]`
abbrev pub is_due : ℕ → Event → Bool
is_due now e = is_pending e.status && elim e.next_retry_at [ none ↦ true | some t ↦ leb t now ]

-- `orderBy: { createdAt: "asc" }`
abbrev pub insert_event : ℕ × Event → List (ℕ × Event) → List (ℕ × Event)
insert_event (k, e) [] = (k, e) ∷ []
insert_event (k, e) ((j, x) ∷ l) =
    let rest = insert_event (k, e) l in
    if leb e.created_at x.created_at then (k, e) ∷ (j, x) ∷ l else (j, x) ∷ rest

abbrev pub oldest_first : List (ℕ × Event) → List (ℕ × Event)
oldest_first [] = []
oldest_first (found ∷ l) = insert_event found (oldest_first l)

-- `take: batchSize`
abbrev pub take_first : ℕ → List (ℕ × Event) → List (ℕ × Event)
take_first zero l = []
take_first (suc n) [] = []
take_first (suc n) (found ∷ l) = found ∷ take_first n l

abbrev pub ids_of : List (ℕ × Event) → List ℕ
ids_of [] = []
ids_of ((k, e) ∷ l) = e.id ∷ ids_of l

abbrev pub is_claimable : List ℕ → Event → Bool
is_claimable ids e = contains e.id ids && is_pending e.status

abbrev pub is_claimed_by : ℕ → List ℕ → Event → Bool
is_claimed_by publisher ids e =
    contains e.id ids && elim e.locked_by [ none ↦ false | some p ↦ p == publisher ]

abbrev pub claimed : ℕ → ℕ → Event → Event
claimed now publisher e = record e {
  status = EventStatus.processing;
  locked_by = some publisher;
  locked_at = some now;
}

abbrev pub published_at_time : ℕ → Event → Event
published_at_time now e = record e {
  status = EventStatus.published;
  published_at = some now;
  locked_by = none;
  locked_at = none;
}

abbrev pub given_up : ℕ → Event → Event
given_up n e = record e {
  status = EventStatus.failed;
  attempts = n;
  locked_by = none;
  locked_at = none;
}

abbrev pub postponed : ℕ → ℕ → Event → Event
postponed n t e = record e {
  status = EventStatus.pending;
  attempts = n;
  next_retry_at = some t;
  locked_by = none;
  locked_at = none;
}

abbrev pub reset : Event → Event
reset e = record e {
  status = EventStatus.pending;
  attempts = 0;
  next_retry_at = none;
  locked_by = none;
  locked_at = none;
}

pub data Delivery : Type 0 where
  published failed dead_lettered : Delivery

-- Which events the queue of domain events accepts, and which the dead letter queue.
pub record Queues : Type 0 where
  pub accepts : ℕ → Bool
  pub accepts_dead : ℕ → Bool

-- How many events a batch claimed, and how each of them ended.
pub record Batch : Type 0 where
  pub claimed_count : ℕ
  pub deliveries : List Delivery

-- The data of a new event: `maxAttempts ?? 10`, and the defaults of its columns.
abbrev pub new_event : ℕ → ℕ → Option ℕ → Event
new_event now id max_attempts = record {
  id = id;
  status = EventStatus.pending;
  attempts = 0;
  max_attempts = elim max_attempts [ none ↦ 10 | some n ↦ n ];
  next_retry_at = none;
  locked_by = none;
  locked_at = none;
  created_at = now;
  published_at = none;
}

module _ (o : Orm) where
  unfoldable pub create_outbox_event : ℕ → Option ℕ → OutboxService o Event
  create_outbox_event now max_attempts s =
      let k = o.fresh Event s.events in
      let e = new_event now k max_attempts in
      (ok e, record s { events = o.write Event k e s.events })

  -- The identifiers that this publisher has locked.
  unfoldable pub claim_batch_for_publishing : ℕ → ℕ → ℕ → OutboxService o (List ℕ)
  claim_batch_for_publishing now publisher size = do
    unlock_stale_events o now 300_000
    due ← gets (λ s. o.find_many Event (is_due now) s.events)
    let ids = ids_of (take_first size (oldest_first due))
    update_events o (is_claimable ids) (claimed now publisher)
    gets (λ s. ids_of (o.find_many Event (is_claimed_by publisher ids) s.events))

  -- The queue accepts a job, or throws.
  abbrev pub push_job : Bool → ℕ → OutboxService o (Unit {0})
  push_job true k s = (ok tt, record s { jobs = k ∷ s.jobs })
  push_job false k s = (err OutboxError.queue_failed, s)

  abbrev pub push_dead : Bool → ℕ → ℕ → OutboxService o (Unit {0})
  push_dead true k n s = (ok tt, record s { dead = (k, n) ∷ s.dead })
  push_dead false k n s = (err OutboxError.queue_failed, s)

  -- `.catch`, which logs the error and goes on.
  abbrev pub swallow : OutboxService o (Unit {0}) → OutboxService o (Unit {0})
  swallow m s = let (r, s') = m s in elim r [ ok u ↦ (ok u, s') | err x ↦ (ok tt, s') ]

  -- The `try` block: the job is published, and the event is marked.
  unfoldable pub publish_event : Queues → ℕ → ℕ → OutboxService o Delivery
  publish_event queues now k = do
    push_job (queues.accepts k) k
    update_event o k (published_at_time now)
    pure Delivery.published

  -- The `catch` block.
  unfoldable pub record_failure : Queues → (ℕ → ℕ) → ℕ → ℕ × Event → OutboxService o Delivery
  record_failure queues draws now (k, e) =
      let give_up = (do
        update_event o k (given_up (suc e.attempts))
        swallow (push_dead (queues.accepts_dead k) k (suc e.attempts))
        pure Delivery.dead_lettered) in
      let postpone = (do
        update_event o k
            (postponed (suc e.attempts) (calculate_next_retry_date now (draws k) (suc e.attempts)))
        pure Delivery.failed) in
      if leb e.max_attempts (suc e.attempts) then give_up else postpone

  unfoldable pub deliver_event : Queues → (ℕ → ℕ) → ℕ → ℕ × Event → OutboxService o Delivery
  deliver_event queues draws now (k, e) s =
      let (r, s') = publish_event queues now k s in
      elim r [ ok d ↦ (ok d, s') | err x ↦ record_failure queues draws now (k, e) s' ]

  unfoldable pub poll_and_publish_batch : Queues → (ℕ → ℕ) → ℕ → ℕ → ℕ → OutboxService o Batch
  poll_and_publish_batch queues draws now publisher size = do
    ids ← claim_batch_for_publishing now publisher size
    events ← gets (λ s. o.find_many Event (λ e. contains e.id ids) s.events)
    done ← for_each (deliver_event queues draws now) events
    pure (record { claimed_count = length ids; deliveries = done })

  unfoldable pub retry_failed_event : ℕ → OutboxService o Event
  retry_failed_event k = do
    e ← or_raise (← gets (λ s. o.find Event k s.events)) OutboxError.event_not_found
    raise_if (is_published e.status) OutboxError.already_published
    update_event o k reset
