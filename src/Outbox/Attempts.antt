-- ===== src/Outbox/Attempts.antt =====
-- What repeated deliveries of one event do, which its queue refuses and at last accepts
-- (`outboxPublisher.service.ts`).
use meeo_server.Base.{
  ℕ, suc, ◌+◌, ◌≤◌, ◌<◌, ◌≡◌, refl, inl, inr, none, some, true, false, List, [], ◌∷◌, arith, ◌==◌,
  ==_refl, ltb, length, if◌then◌else◌,
}
use meeo_server.Orm.{Orm}
use meeo_server.Outbox.Events.{EventStatus, Event, Line}
use meeo_server.Outbox.Retry.{calculate_next_retry_date}
use meeo_server.Outbox.Publisher.{published_at_time, given_up, postponed, Queues, deliver_event}
use meeo_server.Outbox.Delivery.{deliver_event_outcome}

module _ (o : Orm) where
  -- A delivery of an event, whose row is read anew.
  deliver_once : Queues → (ℕ → ℕ) → ℕ → ℕ → Line o → Line o
  deliver_once queues draws k now s = elim (o.find Event k s.events) [
    | none ↦ s
    | some e ↦ (deliver_event o queues draws now (k, e) s).1
  ]

  -- Deliveries of an event, at some times.
  pub deliver_at : Queues → (ℕ → ℕ) → ℕ → List ℕ → Line o → Line o
  deliver_at queues draws k [] s = s
  deliver_at queues draws k (now ∷ times) s =
      deliver_at queues draws k times (deliver_once queues draws k now s)

  -- After `n` refusals of the event `e`: it counts them, is not locked, and waits if it has an attempt
  -- left, and is FAILED if not, in which case it is in the dead letter queue if that accepts it. No
  -- other event and no job is written.
  pub record IsRefused (queues : Queues) (k n : ℕ) (e : Event) (s s' : Line o) : Type 0 where
    pub event :
        (e' : Event) × (o.find Event k s'.events ≡ some e')
        × (e'.attempts ≡ e.attempts + n)
        × (e'.max_attempts ≡ e.max_attempts)
        × (e'.locked_by ≡ none)
        × (e'.locked_at ≡ none)
        × (e'.status ≡ (
            if ltb (e.attempts + n) e.max_attempts
            then EventStatus.pending
            else EventStatus.failed))
    pub others : (j : ℕ) → (k == j) ≡ false → o.find Event j s'.events ≡ o.find Event j s.events
    pub jobs : s'.jobs ≡ s.jobs
    pub dead : s'.dead ≡ (
        if ltb (e.attempts + n) e.max_attempts
        then s.dead
        else if queues.accepts_dead k
        then (k, e.attempts + n) ∷ s.dead
        else s.dead)

  -- After a delivery that is accepted: the event is PUBLISHED, not locked, and its job is queued.
  pub record IsSent (k now : ℕ) (s s' : Line o) : Type 0 where
    pub event :
        (e' : Event) × (o.find Event k s'.events ≡ some e')
        × (e'.status ≡ EventStatus.published)
        × (e'.published_at ≡ some now)
        × (e'.locked_by ≡ none)
        × (e'.locked_at ≡ none)
    pub others : (j : ℕ) → (k == j) ≡ false → o.find Event j s'.events ≡ o.find Event j s.events
    pub jobs : s'.jobs ≡ k ∷ s.jobs
    pub dead : s'.dead ≡ s.dead

  module _ (queues : Queues) (draws : ℕ → ℕ) (k : ℕ) where
    deliver_once-IsRefused :
        (now : ℕ) (e : Event) (s : Line o)
        → o.find Event k s.events ≡ some e
        → queues.accepts k ≡ false
        → IsRefused queues k 1 e s (deliver_once queues draws k now s)
    unfolding deliver_once
    deliver_once-IsRefused now e s here refused =
        rw (deliver_once, here)
          (elim (deliver_event_outcome o queues draws now k e s here) [
            | inl (a, done) ↦ absurd (ground arith)
            | inr (inl (a, last, done)) ↦
                let e' = given_up (suc e.attempts) e in
                let over : ltb (e.attempts + 1) e.max_attempts ≡ false = ground arith in
                rw done (record {
                  event = (
                    e',
                    ground (arith, o.find-write Event k k e' s.events, ==_refl k),
                    omega arith,
                    refl,
                    refl,
                    refl,
                    rw over refl,
                  );
                  others = λ j other. ground (arith, o.find-write Event j k e' s.events);
                  jobs = refl;
                  dead = ground arith;
                })
            | inr (inr (a, more, done)) ↦
                let t = calculate_next_retry_date now (draws k) (suc e.attempts) in
                let e' = postponed (suc e.attempts) t e in
                let left : ltb (e.attempts + 1) e.max_attempts ≡ true = ground arith in
                rw done (record {
                  event = (
                    e',
                    ground (arith, o.find-write Event k k e' s.events, ==_refl k),
                    omega arith,
                    refl,
                    refl,
                    refl,
                    rw left refl,
                  );
                  others = λ j other. ground (arith, o.find-write Event j k e' s.events);
                  jobs = refl;
                  dead = rw left refl;
                })
          ])

    -- A refusal that leaves an attempt, and more of them.
    IsRefused-trans :
        (m : ℕ) (e : Event) (s s1 s2 : Line o)
        → 0 < m
        → e.attempts + suc m ≤ e.max_attempts
        → (one : IsRefused queues k 1 e s s1) → IsRefused queues k m one.event.0 s1 s2
        → IsRefused queues k (suc m) e s s2
    IsRefused-trans m e s s1 s2 positive within one more =
        let (e1, here1, n1, m1, _, _, _) = one.event in
        let (e2, here2, n2, m2, free, idle, status) = more.event in
        record {
          event = (e2, here2, omega arith, omega arith, free, idle, ground arith);
          others = λ j other. ground (arith, one.others j other, more.others j other);
          jobs = ground (arith, one.jobs, more.jobs);
          dead = ground (arith, one.dead, more.dead);
        }

    refusals :
        (now : ℕ) (times : List ℕ) (e : Event) (s : Line o)
        → o.find Event k s.events ≡ some e
        → queues.accepts k ≡ false
        → e.attempts + suc (length times) ≤ e.max_attempts
        → IsRefused queues k (suc (length times)) e s (deliver_at queues draws k (now ∷ times) s)
    unfolding deliver_at
    refusals now [] e s here refused within = deliver_once-IsRefused now e s here refused
    refusals now (next ∷ times) e s here refused within =
        let s1 = deliver_once queues draws k now s in
        let one = deliver_once-IsRefused now e s here refused in
        let (e1, here1, n1, m1, _, _, _) = one.event in
        IsRefused-trans (suc (length times)) e s s1 (deliver_at queues draws k (next ∷ times) s1)
          (omega arith) within one (refusals next times e1 s1 here1 refused (omega arith))

    deliver_once-IsSent :
        (now : ℕ) (e : Event) (s : Line o)
        → o.find Event k s.events ≡ some e
        → queues.accepts k ≡ true
        → IsSent k now s (deliver_once queues draws k now s)
    unfolding deliver_once
    deliver_once-IsSent now e s here accepted =
        let e' = published_at_time now e in
        rw (deliver_once, here)
          (elim (deliver_event_outcome o queues draws now k e s here) [
            | inl (a, done) ↦ rw done (record {
              event = (
                e',
                ground (arith, o.find-write Event k k e' s.events, ==_refl k),
                refl,
                refl,
                refl,
                refl,
              );
              others = λ j other. ground (arith, o.find-write Event j k e' s.events);
              jobs = refl;
              dead = refl;
            })
            | inr (inl (a, last, done)) ↦ absurd (ground arith)
            | inr (inr (a, more, done)) ↦ absurd (ground arith)
          ])

  -- An event with enough attempts left is delivered at some times, at least one, and the queue refuses
  -- it each time. Then it counts one attempt for each and is not locked; while an attempt is left it
  -- is PENDING again, and with the last attempt it is FAILED, and one dead letter is sent, which is
  -- lost if the dead letter queue refuses it. A further delivery that the queue accepts
  -- queues one job and leaves the event PUBLISHED and not locked. No other event is written.
  pub deliver_at_lem :
      (queues accepting : Queues) (draws : ℕ → ℕ) (k now last : ℕ) (times : List ℕ) (e : Event)
      (s : Line o)
      → o.find Event k s.events ≡ some e
      → queues.accepts k ≡ false
      → accepting.accepts k ≡ true
      → e.attempts + suc (length times) ≤ e.max_attempts
      → let s1 = deliver_at queues draws k (now ∷ times) s in
        IsRefused queues k (suc (length times)) e s s1
        × IsSent k last s1 (deliver_at accepting draws k (last ∷ []) s1)
  unfolding deliver_at
  deliver_at_lem queues accepting draws k now last times e s here refused accepted within =
      let after = refusals queues draws k now times e s here refused within in
      let (e1, here1, _, _, _, _, _) = after.event in
      (
        after,
        deliver_once-IsSent accepting draws k last e1 (deliver_at queues draws k (now ∷ times) s)
            here1 accepted,
      )
