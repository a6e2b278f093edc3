-- ===== src/Outbox/Events.antt =====
-- The rows of `prisma/schema/Infrastructure/outboxEvent.prisma`, the queues, and the calls on them.
use meeo_server.Base.{ℕ, Option, none, some, Bool, true, false, List}
use meeo_server.Base.Result.{ok, err, Action}
use meeo_server.Orm.{Orm}
use meeo_server.Store.{rewrite_all}

pub data EventStatus : Type 0 where
  pending processing published failed : EventStatus

abbrev pub is_pending : EventStatus → Bool
is_pending EventStatus.pending = true
is_pending _ = false

abbrev pub is_processing : EventStatus → Bool
is_processing EventStatus.processing = true
is_processing _ = false

abbrev pub is_published : EventStatus → Bool
is_published EventStatus.published = true
is_published _ = false

-- An event, without its type, its payload and the text of its last error.
pub record Event : Type 0 where
  pub id : ℕ
  pub status : EventStatus
  pub attempts : ℕ
  pub max_attempts : ℕ
  pub next_retry_at : Option ℕ
  pub locked_by : Option ℕ
  pub locked_at : Option ℕ
  pub created_at : ℕ
  pub published_at : Option ℕ

pub data OutboxError : Type 0 where
  missing_row queue_failed event_not_found already_published : OutboxError

-- The table, the jobs that the queue of domain events has accepted, and those sent to the dead
-- letter queue with their attempts, newest first.
pub record Line (o : Orm) : Type 0 where
  pub events : o.Table Event
  pub jobs : List ℕ
  pub dead : List (ℕ × ℕ)

abbrev pub OutboxService : Orm → Type 0 → Type 0
OutboxService o A = Action (Line o) OutboxError A

module _ (o : Orm) where
  abbrev pub update_event : ℕ → (Event → Event) → OutboxService o Event
  update_event k f s = elim (o.find Event k s.events) [
    | none ↦ (err OutboxError.missing_row, s)
    | some r ↦ (ok (f r), record s { events = o.write Event k (f r) s.events })
  ]

  abbrev pub update_events : (Event → Bool) → (Event → Event) → OutboxService o (Unit {0})
  update_events p f s =
      (ok tt, record s { events = rewrite_all o f (o.find_many Event p s.events) s.events })
