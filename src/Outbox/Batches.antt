-- ===== src/Outbox/Batches.antt =====
-- Claiming a batch and delivering it keep the events in order (`claimBatchForPublishing` and the loop of
-- `pollAndPublishBatch`, `outboxPublisher.service.ts`).
use mathlib.Core.Option
use meeo_server.Base.{
  ℕ, suc, ◌≡◌, refl, sym, subst, ◌∙◌, ◌⊎◌, inl, inr, Option, none, some, Bool, true, false, List,
  [], ◌∷◌, arith, ◌==◌, ==_refl, if◌then◌else◌, Bool-cases, find_in, Distinct, keep,
}
use meeo_server.Base.Result.{ok, for_each}
use meeo_server.Orm.{Orm}
use meeo_server.Store.{rewrite_all}
use meeo_server.Store.Rows.{find-update_many}
use meeo_server.Outbox.Events.{Event, Line}
use meeo_server.Outbox.Retry.{
  calculate_next_retry_date, is_stale_lock, unlocked, unlock_stale_events,
}
use meeo_server.Outbox.Publisher.{
  is_due, oldest_first, take_first, ids_of, is_claimable, is_claimed_by, claimed, published_at_time,
  given_up, postponed, Queues, Delivery, claim_batch_for_publishing, deliver_event,
}
use meeo_server.Outbox.Delivery.{deliver_event_outcome}
use meeo_server.Outbox.Rules.{
  is_orderly, IsOrderlyRow, unlocked-is_orderly, claimed-is_orderly, published-is_orderly,
  given_up-is_orderly, postponed-is_orderly,
}

module _ (o : Orm) where
  abbrev pub IsOrderly : o.Table Event → Type 0
  IsOrderly t = (k : ℕ) → IsOrderlyRow (o.find Event k t)

  pub write-IsOrderly :
      (k : ℕ) (e : Event) (t : o.Table Event)
      → IsOrderly t
      → is_orderly e ≡ true
      → IsOrderly (o.write Event k e t)
  write-IsOrderly k e t h w j = ground (arith, o.find-write Event j k e t, h j)

  update_many-IsOrderly :
      (p : Event → Bool) (f : Event → Event) (t : o.Table Event)
      → ((e : Event) → is_orderly e ≡ true → p e ≡ true → is_orderly (f e) ≡ true)
      → IsOrderly t
      → IsOrderly (rewrite_all o f (o.find_many Event p t) t)
  update_many-IsOrderly p f t keeps h j =
      subst IsOrderlyRow (sym (find-update_many o p f t j)) (go (o.find Event j t) (h j))
    where
      go :
          (x : Option Event)
          → IsOrderlyRow x
          → IsOrderlyRow (Option.map (λ r. if p r then f r else r) x)
      go none w = tt
      go (some e) w = elim (Bool-cases (p e)) [
        | inl chosen ↦ ground (arith, keeps e w chosen)
        | inr other ↦ ground arith
      ]

  -- The events of a list stand in the table.
  abbrev pub Standing : List (ℕ × Event) → o.Table Event → Type 0
  Standing [] t = Unit
  Standing ((k, e) ∷ l) t = (o.find Event k t ≡ some e) × Standing l t

  Standing-write :
      (k : ℕ) (e : Event) (l : List (ℕ × Event)) (t : o.Table Event)
      → find_in k l ≡ none
      → Standing l t
      → Standing l (o.write Event k e t)
  Standing-write k e [] t h st = tt
  Standing-write k e ((j, x) ∷ l) t h st =
      ground (arith, Standing-write k e l t, o.find-write Event j k e t)

  -- A delivery writes the event anew, in order, and no other.
  deliver_event-writes :
      (queues : Queues) (draws : ℕ → ℕ) (now k : ℕ) (e : Event) (s : Line o)
      → o.find Event k s.events ≡ some e
      → is_orderly e ≡ true
      → (d : Delivery) × (e' : Event) × (s' : Line o) × (deliver_event o queues draws now (k, e) s
          ≡ (ok d, s'))
        × (s'.events ≡ o.write Event k e' s.events)
        × (is_orderly e' ≡ true)
  deliver_event-writes queues draws now k e s here w =
      elim (deliver_event_outcome o queues draws now k e s here) [
        | inl (a, done) ↦ (
          Delivery.published,
          published_at_time now e,
          record s {
            events = o.write Event k (published_at_time now e) s.events;
            jobs = k ∷ s.jobs;
          },
          done,
          refl,
          published-is_orderly now e w,
        )
        | inr (inl (a, last, done)) ↦ (
          Delivery.dead_lettered,
          given_up (suc e.attempts) e,
          record s {
            events = o.write Event k (given_up (suc e.attempts) e) s.events;
            dead = if queues.accepts_dead k then (k, suc e.attempts) ∷ s.dead else s.dead;
          },
          done,
          refl,
          given_up-is_orderly e w last,
        )
        | inr (inr (a, more, done)) ↦
            let t = calculate_next_retry_date now (draws k) (suc e.attempts) in
            (
              Delivery.failed,
              postponed (suc e.attempts) t e,
              record s { events = o.write Event k (postponed (suc e.attempts) t e) s.events },
              done,
              refl,
              postponed-is_orderly t e w more,
            )
      ]

  pub deliver_all-IsOrderly :
      (queues : Queues) (draws : ℕ → ℕ) (now : ℕ) (l : List (ℕ × Event)) (s : Line o)
      → IsOrderly s.events
      → Distinct l
      → Standing l s.events
      → (ds : List Delivery) × (s' : Line o) × (for_each (deliver_event o queues draws now) l s
          ≡ (ok ds, s'))
        × IsOrderly s'.events
  unfolding for_each
  deliver_all-IsOrderly queues draws now [] s h d st = ([], s, refl, h)
  deliver_all-IsOrderly queues draws now ((k, e) ∷ l) s h d st =
      let w : is_orderly e ≡ true = subst IsOrderlyRow st.0 (h k) in
      let (x, e', s1, done, table, w') = deliver_event-writes queues draws now k e s st.0 w in
      let (xs, s2, rest, h2) =
        deliver_all-IsOrderly queues draws now l s1
          (subst IsOrderly (sym table) (write-IsOrderly k e' s.events h w')) d.1
          (subst (Standing l) (sym table) (Standing-write k e' l s.events d.0 st.1)) in
      (x ∷ xs, s2, ground arith, h2)

  pub claim-IsOrderly :
      (now publisher size : ℕ) (s : Line o)
      → IsOrderly s.events
      → (ids : List ℕ) × (s' : Line o) × (claim_batch_for_publishing o now publisher size s
          ≡ (ok ids, s'))
        × IsOrderly s'.events
  unfolding claim_batch_for_publishing unlock_stale_events
  claim-IsOrderly now publisher size s h =
      let t1 =
        rewrite_all o unlocked (o.find_many Event (is_stale_lock now 300_000) s.events) s.events in
      let h1 =
        update_many-IsOrderly (is_stale_lock now 300_000) unlocked s.events
          (unlocked-is_orderly now 300_000) h in
      let chosen = ids_of (take_first size (oldest_first (o.find_many Event (is_due now) t1))) in
      let t2 =
        rewrite_all o (claimed now publisher) (o.find_many Event (is_claimable chosen) t1) t1 in
      let h2 =
        update_many-IsOrderly (is_claimable chosen) (claimed now publisher) t1
          (claimed-is_orderly now publisher chosen) h1 in
      (
        ids_of (o.find_many Event (is_claimed_by publisher chosen) t2),
        record s { events = t2 },
        refl,
        h2,
      )

  pub find_many-Standing :
      (p : Event → Bool) (t : o.Table Event) → Standing (o.find_many Event p t) t
  find_many-Standing p t =
      go (o.find_many Event p t) (o.find_many-Distinct Event p t)
        (λ j x e. kept (o.find Event j t) x (sym (o.find_in-find_many Event p j t) ∙ e))
    where
      kept : (y : Option Event) (x : Event) → keep p y ≡ some x → y ≡ some x
      kept none x e = cc
      kept (some y) x e = ground arith

      go :
          (l : List (ℕ × Event))
          → Distinct l
          → ((j : ℕ) (x : Event) → find_in j l ≡ some x → o.find Event j t ≡ some x)
          → Standing l t
      go [] d stands = tt
      go ((k, e) ∷ l) d stands = (
        stands k e (ground (arith, ==_refl k)),
        go l d.1 (λ j x found. stands j x (later j x found (Bool-cases (k == j)))),
      )
        where
          later :
              (j : ℕ) (x : Event)
              → find_in j l ≡ some x
              → ((k == j) ≡ true) ⊎ ((k == j) ≡ false)
              → find_in j ((k, e) ∷ l) ≡ some x
          later j x found (inl same) = ground (arith, d.0)
          later j x found (inr other) = ground arith
