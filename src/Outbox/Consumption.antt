-- ===== src/Outbox/Consumption.antt =====
-- `src/modules/outbox/services/processedEvent.service.ts` (`runWithConsumerIdempotency`), over the rows of
-- `prisma/schema/Infrastructure/processedEvent.prisma`. What handlers act on is a parameter: a handler
-- says whether it returned, and what it left.
use meeo_server.Base.{ℕ, ◌+◌, Bool, true, false, Option, none, some, ◌==◌, ◌&&◌}
use meeo_server.Base.Result.{ok, err, Action, ◌>>=◌, ◌>>◌, pure, gets}
use meeo_server.Orm.{Orm}
use meeo_server.Store.{find_first}

pub data ProcessedStatus : Type 0 where
  processing completed failed : ProcessedStatus

abbrev pub is_completed : ProcessedStatus → Bool
is_completed ProcessedStatus.completed = true
is_completed _ = false

-- A row, with whether its last error is set in place of the error's text.
pub record Processed : Type 0 where
  pub event : ℕ
  pub consumer : ℕ
  pub status : ProcessedStatus
  pub attempts : ℕ
  pub has_error : Bool
  pub processed_at : Option ℕ

pub data ConsumerError : Type 0 where
  missing_row handler_failed : ConsumerError

module _ (o : Orm) (W : Type 0) where
  pub record Desk : Type 0 where
    pub rows : o.Table Processed
    pub world : W

  abbrev pub ConsumerService : Type 0 → Type 0
  ConsumerService A = Action Desk ConsumerError A

  -- A consumer's handler, at work on an event.
  pub record Task : Type 0 where
    pub event : ℕ
    pub consumer : ℕ
    pub handler : W → Bool × W

  -- `eventId_consumerName`
  abbrev pub is_for : ℕ → ℕ → Processed → Bool
  is_for event consumer r = (r.event == event) && (r.consumer == consumer)

  abbrev pub row_for : ℕ → ℕ → Desk → Option (ℕ × Processed)
  row_for event consumer s = find_first o (is_for event consumer) s.rows

  abbrev pub update_row : ℕ → (Processed → Processed) → ConsumerService Processed
  update_row k f s = elim (o.find Processed k s.rows) [
    | none ↦ (err ConsumerError.missing_row, s)
    | some r ↦ (ok (f r), record s { rows = o.write Processed k (f r) s.rows })
  ]

  abbrev pub resumed : Processed → Processed
  resumed r = record r {
    status = ProcessedStatus.processing;
    attempts = r.attempts + 1;
    has_error = false;
  }

  abbrev pub first_attempt : ℕ → ℕ → Processed
  first_attempt event consumer = record {
    event = event;
    consumer = consumer;
    status = ProcessedStatus.processing;
    attempts = 1;
    has_error = false;
    processed_at = none;
  }

  -- `upsert`, with the key of the row.
  unfoldable pub upsert_row : ℕ → ℕ → ConsumerService ℕ
  upsert_row event consumer s = elim (row_for event consumer s) [
    | some (k, r) ↦ (ok k, record s { rows = o.write Processed k (resumed r) s.rows })
    | none ↦
        let k = o.fresh Processed s.rows in
        (ok k, record s { rows = o.write Processed k (first_attempt event consumer) s.rows })
  ]

  abbrev pub completed_at : ℕ → Processed → Processed
  completed_at now r = record r {
    status = ProcessedStatus.completed;
    has_error = false;
    processed_at = some now;
  }

  abbrev pub failed_row : Processed → Processed
  failed_row r = record r { status = ProcessedStatus.failed; has_error = true }

  -- The handler, and the `try` and the `catch` around it: the update of the `catch` may fail unheard.
  unfoldable pub run_handler : ℕ → ℕ → (W → Bool × W) → ConsumerService (Unit {0})
  run_handler now k handler s =
      let (returned, w) = handler s.world in
      let after : Desk = record { rows = s.rows; world = w } in
      elim returned [
        | true ↦ (do update_row k (completed_at now); pure tt) after
        | false ↦ (err ConsumerError.handler_failed, (update_row k failed_row after).1)
      ]

  abbrev pub is_done : Option (ℕ × Processed) → Bool
  is_done none = false
  is_done (some (k, r)) = is_completed r.status

  -- Whether the event had been processed already.
  unfoldable pub run_with_consumer_idempotency : ℕ → Task → ConsumerService Bool
  run_with_consumer_idempotency now d = do
    existing ← gets (row_for d.event d.consumer)
    elim (is_done existing) [
      | true ↦ pure true
      | false ↦ do k ← upsert_row d.event d.consumer; run_handler now k d.handler; pure false
    ]
