-- ===== src/Outbox/Tests.antt =====
-- The theorems on the outbox, applied to two events.
use meeo_server.Base.{
  ℕ, ◌+◌, ◌≤◌, ◌<◌, ◌≡◌, refl, ◌⊎◌, Option, none, some, Bool, true, false, List, [], ◌∷◌, arith,
  ◌==◌,
}
use meeo_server.Base.Result.{ok, err}
use meeo_server.Tables.{lists}
use meeo_server.Outbox.Consumption.{Desk, Task}
use meeo_server.Outbox.Once.{deliver_all, deliver_all-once}
use meeo_server.Outbox.Events.{EventStatus, Event, Line}
use meeo_server.Outbox.Retry.{
  calculate_next_retry_date, compute_exponential_backoff, backoff_bounds,
}
use meeo_server.Outbox.Publisher.{
  published_at_time, given_up, postponed, Queues, Delivery, Batch, deliver_event,
  poll_and_publish_batch,
}
use meeo_server.Outbox.Attempts.{deliver_at, IsRefused, IsSent, deliver_at_lem}
use meeo_server.Outbox.Batches.{IsOrderly}
use meeo_server.Outbox.Order.{
  Turn, take_turns, poll_and_publish_batch-IsOrderly, take_turns-IsOrderly,
}

-- An event on its last attempt, and one that a publisher left locked.
abbrev last_try : Event
last_try = record {
  id = 1;
  status = EventStatus.pending;
  attempts = 9;
  max_attempts = 10;
  next_retry_at = some 50;
  locked_by = none;
  locked_at = none;
  created_at = 20;
  published_at = none;
}

abbrev left_locked : Event
left_locked = record {
  id = 2;
  status = EventStatus.processing;
  attempts = 0;
  max_attempts = 10;
  next_retry_at = none;
  locked_by = some 77;
  locked_at = some 10;
  created_at = 10;
  published_at = none;
}

abbrev line : Line lists
line = record { events = (1, last_try) ∷ (2, left_locked) ∷ []; jobs = []; dead = [] }

-- Event 2 is accepted, and nothing else by either queue.
abbrev accepts_two : Queues
accepts_two = record { accepts = λ k. k == 2; accepts_dead = λ k. false }

backoff_bounds_example :
    (2000 ≤ compute_exponential_backoff 1_000_000 30)
    × (compute_exponential_backoff 1_000_000 30 ≤ 360_000)
backoff_bounds_example = backoff_bounds 1_000_000 30 (omega arith)

-- An event with two attempts left.
abbrev late_try : Event
late_try = record last_try { attempts = 8 }

abbrev late_line : Line lists
late_line = record line { events = (1, late_try) ∷ (2, left_locked) ∷ [] }

abbrev accepts_all : Queues
accepts_all = record { accepts = λ k. true; accepts_dead = λ k. true }

deliver_at_lem_example :
    let s1 = deliver_at lists accepts_two (λ k. 0) 1 (400_000 ∷ 500_000 ∷ []) late_line in
    IsRefused lists accepts_two 1 2 late_try late_line s1
    × IsSent lists 1 600_000 s1 (deliver_at lists accepts_all (λ k. 0) 1 (600_000 ∷ []) s1)
deliver_at_lem_example =
    deliver_at_lem lists accepts_two accepts_all (λ k. 0) 1 400_000 600_000 (500_000 ∷ []) late_try
      late_line refl refl refl (omega arith)

line-IsOrderly : IsOrderly lists line.events
line-IsOrderly k = ground arith

poll_and_publish_batch-IsOrderly_example :
    (b : Batch) × (s' : Line lists) × (poll_and_publish_batch lists accepts_two
        (λ k. 0)
        400_000
        5
        50
        line
      ≡ (ok b, s'))
    × IsOrderly lists s'.events
poll_and_publish_batch-IsOrderly_example =
    poll_and_publish_batch-IsOrderly lists accepts_two (λ k. 0) 400_000 5 50 line line-IsOrderly

-- The last attempt fails, and an administrator tries again.
abbrev turns : List Turn
turns =
    Turn.poll accepts_two (λ k. 0) 400_000 5 50
    ∷ Turn.retry 1
    ∷ Turn.retry 2
    ∷ Turn.create 450_000 none
    ∷ Turn.poll accepts_two (λ k. 9) 500_000 5 50
    ∷ []

take_turns-IsOrderly_example : IsOrderly lists (take_turns lists turns line).events
take_turns-IsOrderly_example =
    take_turns-IsOrderly lists turns line (tt, (tt, (tt, (λ e. cc, (tt, tt))))) line-IsOrderly

-- Both are claimed, of which the queue accepts one.
poll_runs :
    (poll_and_publish_batch lists accepts_two (λ k. 0) 400_000 5 50 line).0
    ≡ ok (record {
      claimed_count = 2;
      deliveries = Delivery.dead_lettered ∷ Delivery.published ∷ [];
    })
unfolding poll_and_publish_batch meeo_server.Outbox.Publisher.claim_batch_for_publishing
    meeo_server.Outbox.Retry.unlock_stale_events meeo_server.Base.Result.for_each
    meeo_server.Store.rewrite_all deliver_event meeo_server.Outbox.Publisher.publish_event
    meeo_server.Outbox.Publisher.record_failure
poll_runs = refl

-- A counter that a handler raises, and that one may raise before it throws.
abbrev count_up : Bool → Task lists ℕ
count_up returns = record { event = 5; consumer = 6; handler = λ n. (returns, n + 1) }

abbrev empty_desk : Desk lists ℕ
empty_desk = record { rows = []; world = 0 }

-- The second delivery returns, so that the third does nothing.
deliver_all-once_example :
    (deliver_all lists ℕ
      ((1, count_up false) ∷ (2, count_up true) ∷ (3, count_up true) ∷ [])
      empty_desk).world
    ≡ 2
deliver_all-once_example =
    deliver_all-once lists ℕ ((1, count_up false) ∷ (2, count_up true) ∷ (3, count_up true) ∷ []) []
      empty_desk (λ j k a b e1 e2 same other. cc)
      (record { stored = λ e c has. cc; listed = λ k r here full. cc })
