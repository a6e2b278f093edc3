-- ===== src/Outbox/Once.antt =====
-- `runWithConsumerIdempotency` (`src/modules/outbox/services/processedEvent.service.ts`): a handler that
-- has returned for an event is not run for it again.
use meeo_server.Base.{
  ℕ, ◌≡◌, refl, sym, ◌∙◌, ap, subst, ◌⊎◌, inl, inr, some, Bool, true, false, List, [], ◌∷◌, arith,
  ==_refl, if◌then◌else◌, Bool-cases,
}
use meeo_server.Base.Result.{Result, ok, err}
use meeo_server.Orm.{Orm}
use meeo_server.Outbox.Records.{
  has_pair, IsUnique, IsRecorded, is_done_lem, upsert_lem, last-IsUnique, last-IsRecorded,
}
use meeo_server.Outbox.Consumption.{
  is_completed, Processed, ConsumerError, Desk, Task, row_for, upsert_row, completed_at, failed_row,
  run_handler, is_done, run_with_consumer_idempotency,
}

module _ (o : Orm) where
  module _ (W : Type 0) where
    -- The outcome of the handler, written to the row.
    run_handler_lem :
        (now k : ℕ) (handler : W → Bool × W) (r : Processed) (s : Desk o W)
        → o.find Processed k s.rows ≡ some r
        → (run_handler o W now k handler s).1 ≡ record s {
          rows =
              o.write Processed k
                (if (handler s.world).0 then completed_at o W now r else failed_row o W r)
                s.rows;
          world = (handler s.world).1;
        }
    unfolding run_handler
    run_handler_lem now k handler r s here = ground arith

    open_lem :
        (now : ℕ) (d : Task o W) (s : Desk o W) (k : ℕ) (s1 : Desk o W)
        → is_done o W (row_for o W d.event d.consumer s) ≡ false
        → upsert_row o W d.event d.consumer s ≡ (ok k, s1)
        → (run_with_consumer_idempotency o W now d s).1 ≡ (run_handler o W now k d.handler s1).1
    unfolding run_with_consumer_idempotency
    open_lem now d s k s1 open_row upserted = go (run_handler o W now k d.handler s1) refl
      where
        go :
            (x : Result ConsumerError (Unit {0}) × Desk o W)
            → run_handler o W now k d.handler s1 ≡ x
            → (run_with_consumer_idempotency o W now d s).1 ≡ (run_handler o W now k d.handler s1).1
        go (ok u, s2) e = ground arith
        go (err x, s2) e = ground arith

    -- A delivery to a consumer that has completed the event does nothing; any other runs the handler
    -- once, and the pair is completed if it returned.
    step_lem :
        (now : ℕ) (d : Task o W) (done : List (ℕ × ℕ)) (s : Desk o W)
        → IsUnique o s.rows
        → IsRecorded o done s.rows
        → let s' = (run_with_consumer_idempotency o W now d s).1 in
          ((has_pair d.event d.consumer done ≡ true) × (s' ≡ s))
          ⊎ ((has_pair d.event d.consumer done ≡ false)
              × (s'.world ≡ (d.handler s.world).1)
              × IsUnique o s'.rows
              × IsRecorded o
                  (if (d.handler s.world).0 then (d.event, d.consumer) ∷ done else done)
                  s'.rows)
    unfolding run_with_consumer_idempotency
    step_lem now d done s unique h =
        let known = is_done_lem o W d.event d.consumer s unique done h in
        elim (Bool-cases (has_pair d.event d.consumer done)) [
          | inl has ↦ inl (has, ground arith)
          | inr has ↦
              let (k, r, upserted, ee, ec, only, before) =
                upsert_lem o W d.event d.consumer s unique (known ∙ has) in
              let s1 : Desk o W = record s { rows = o.write Processed k r s.rows } in
              let here : o.find Processed k s1.rows ≡ some r =
                ground (arith, o.find-write Processed k k r s.rows, ==_refl k) in
              let r2 = if (d.handler s.world).0 then completed_at o W now r else failed_row o W r in
              let after =
                open_lem now d s k s1 (known ∙ has) upserted
                ∙ run_handler_lem now k d.handler r s1 here in
              let of_event : r2.event ≡ d.event = ground arith in
              let of_consumer : r2.consumer ≡ d.consumer = ground arith in
              let status : is_completed r2.status ≡ (d.handler s.world).0 = ground arith in
              let rows = ap (λ (x : Desk o W). x.rows) (sym after) in
              inr (
                has,
                ap (λ (x : Desk o W). x.world) after,
                subst (IsUnique o) rows (
                    last-IsUnique o d.event d.consumer k r r2 s.rows unique of_event of_consumer
                      only before),
                subst
                    (IsRecorded o
                      (if (d.handler s.world).0 then (d.event, d.consumer) ∷ done else done))
                    rows
                    (last-IsRecorded o d.event d.consumer k r r2 s.rows unique of_event of_consumer
                      only before done (d.handler s.world).0 status h),
              )
        ]

    -- The deliveries one after another, each at its time, whether they return or throw.
    pub deliver_all : List (ℕ × Task o W) → Desk o W → Desk o W
    deliver_all [] s = s
    deliver_all ((now, d) ∷ l) s = deliver_all l (run_with_consumer_idempotency o W now d s).1

    -- What the deliveries should do: a handler runs, unless one of the same event and consumer has
    -- returned before.
    abbrev pub once : List (ℕ × Task o W) → List (ℕ × ℕ) → W → W
    once [] done w = w
    once ((now, d) ∷ l) done w = elim (has_pair d.event d.consumer done) [
      | true ↦ once l done w
      | false ↦
          once l (if (d.handler w).0 then (d.event, d.consumer) ∷ done else done) (d.handler w).1
    ]

    module _ (now : ℕ) (d : Task o W) (l : List (ℕ × Task o W)) (done : List (ℕ × ℕ)) (w : W) where
      once_skip :
          has_pair d.event d.consumer done ≡ true → once ((now, d) ∷ l) done w ≡ once l done w
      once_skip has = ground arith

      once_run :
          has_pair d.event d.consumer done ≡ false
          → once ((now, d) ∷ l) done w
            ≡ once l
                (if (d.handler w).0 then (d.event, d.consumer) ∷ done else done)
                (d.handler w).1
      once_run has = ground arith

    -- Where a pair has one row at most, and the completed rows are those of the listed pairs, a
    -- sequence of deliveries, of any events to any consumers, with handlers that return or throw, does
    -- what `once` says: no handler runs for an event and a consumer after one has returned for them,
    -- and every other delivery runs its handler.
    pub deliver_all-once :
        (l : List (ℕ × Task o W)) (done : List (ℕ × ℕ)) (s : Desk o W)
        → IsUnique o s.rows
        → IsRecorded o done s.rows
        → (deliver_all l s).world ≡ once l done s.world
    unfolding deliver_all
    deliver_all-once [] done s unique h = refl
    deliver_all-once ((now, d) ∷ l) done s unique h =
        let s' = (run_with_consumer_idempotency o W now d s).1 in
        elim (step_lem now d done s unique h) [
          | inl (has, same) ↦
              let ih = deliver_all-once l done s unique h in
              ap (λ (x : Desk o W). (deliver_all l x).world) same
              ∙ ih
              ∙ sym (once_skip now d l done s.world has)
          | inr (has, w, u, k) ↦
              let next = if (d.handler s.world).0 then (d.event, d.consumer) ∷ done else done in
              deliver_all-once l next s' u k
              ∙ ap (λ (x : W). once l next x) w
              ∙ sym (once_run now d l done s.world has)
        ]
