-- ===== src/Outbox/Delivery.antt =====
-- What the delivery of one event does (`outboxPublisher.service.ts`).
use meeo_server.Base.{
  ℕ, suc, ◌≤◌, ◌<◌, ◌≡◌, ◌⊎◌, inl, inr, some, true, false, ◌∷◌, arith, leb, Bool-cases,
  if◌then◌else◌,
}
use meeo_server.Base.Result.{ok}
use meeo_server.Orm.{Orm}
use meeo_server.Outbox.Events.{Event, Line}
use meeo_server.Outbox.Retry.{calculate_next_retry_date}
use meeo_server.Outbox.Publisher.{
  published_at_time, given_up, postponed, Queues, Delivery, publish_event, record_failure,
  deliver_event,
}

module _ (o : Orm) (queues : Queues) (draws : ℕ → ℕ) (now k : ℕ) (e : Event) (s : Line o) where
  -- The delivery of an event that stands in the table returns; it is published, sent to the dead letter
  -- queue, or postponed.
  pub deliver_event_outcome :
      o.find Event k s.events ≡ some e
      → ((queues.accepts k ≡ true)
          × (deliver_event o queues draws now (k, e) s ≡ (
            ok Delivery.published,
            record s {
              events = o.write Event k (published_at_time now e) s.events;
              jobs = k ∷ s.jobs;
            },
          )))
        ⊎ (((queues.accepts k ≡ false)
              × (e.max_attempts ≤ suc e.attempts)
              × (deliver_event o queues draws now (k, e) s ≡ (
                ok Delivery.dead_lettered,
                record s {
                  events = o.write Event k (given_up (suc e.attempts) e) s.events;
                  dead = if queues.accepts_dead k then (k, suc e.attempts) ∷ s.dead else s.dead;
                },
              )))
            ⊎ ((queues.accepts k ≡ false)
                × (suc e.attempts < e.max_attempts)
                × (deliver_event o queues draws now (k, e) s ≡ (
                  ok Delivery.failed,
                  record s {
                    events =
                        o.write Event k
                          (postponed
                            (suc e.attempts)
                            (calculate_next_retry_date now (draws k) (suc e.attempts))
                            e)
                          s.events;
                  },
                ))))
  unfolding deliver_event publish_event record_failure
  deliver_event_outcome here = elim (Bool-cases (queues.accepts k)) [
    | inl a ↦ inl (a, ground arith)
    | inr a ↦ elim (Bool-cases (leb e.max_attempts (suc e.attempts))) [
      | inl last ↦ elim (Bool-cases (queues.accepts_dead k)) [
        | inl b ↦ inr (inl (a, ground arith, ground arith))
        | inr b ↦ inr (inl (a, ground arith, ground arith))
      ]
      | inr more ↦ inr (inr (a, ground arith, ground arith))
    ]
  ]
