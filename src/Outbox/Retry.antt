-- ===== src/Outbox/Retry.antt =====
-- `src/modules/outbox/services/outboxRetry.service.ts`, with its default configuration.
use meeo_server.Base.{
  ℕ, zero, suc, ◌+◌, ◌-◌, ◌*◌, ◌/◌, ◌^◌, ◌≤◌, none, some, Bool, false, ◌&&◌, length, arith, leb,
  min, max,
}
use meeo_server.Base.Result.{◌>>=◌, ◌>>◌, pure, gets}
use meeo_server.Orm.{Orm}
use meeo_server.Outbox.Events.{EventStatus, is_processing, Event, OutboxService, update_events}

-- The delay before jitter: it doubles with each attempt, up to five minutes.
abbrev pub capped_delay : ℕ → ℕ
capped_delay attempts = min (2000 * 2 ^ (max 1 attempts - 1)) 300_000

-- The delay, where `draw` is `Math.random()` in millionths: the jitter is `(draw * 2 - 1)` times a
-- fifth of the capped delay, and the sum is rounded half up.
unfoldable pub compute_exponential_backoff : ℕ → ℕ → ℕ
compute_exponential_backoff draw attempts =
    max 2000 ((capped_delay attempts * (8_000_000 + 4 * draw) + 5_000_000) / 10_000_000)

abbrev pub calculate_next_retry_date : ℕ → ℕ → ℕ → ℕ
calculate_next_retry_date now draw attempts = now + compute_exponential_backoff draw attempts

mul_mono : (a b c : ℕ) → b ≤ c → a * b ≤ a * c
mul_mono zero b c h = omega arith
mul_mono (suc a) b c h = omega (arith, mul_mono a b c h)

-- Whatever is drawn, a retry waits at least two seconds and at most six minutes.
pub backoff_bounds :
    (draw attempts : ℕ)
    → draw ≤ 1_000_000
    → (2000 ≤ compute_exponential_backoff draw attempts)
      × (compute_exponential_backoff draw attempts ≤ 360_000)
unfolding compute_exponential_backoff
backoff_bounds draw attempts h =
    let d = capped_delay attempts in
    let small : d ≤ 300_000 = ground arith in
    let scaled : d * (8_000_000 + 4 * draw) ≤ d * 12_000_000 =
      mul_mono d (8_000_000 + 4 * draw) 12_000_000 (omega arith) in
    go d (d * (8_000_000 + 4 * draw)) small scaled
  where
    go :
        (d x : ℕ)
        → d ≤ 300_000
        → x ≤ d * 12_000_000
        → (2000 ≤ max 2000 ((x + 5_000_000) / 10_000_000))
          × (max 2000 ((x + 5_000_000) / 10_000_000) ≤ 360_000)
    go d x small scaled = (ground arith, ground arith)

-- `status: "PROCESSING", lockedAt: { lte: now - threshold }`
abbrev pub is_stale_lock : ℕ → ℕ → Event → Bool
is_stale_lock now threshold e =
    is_processing e.status && elim e.locked_at [ none ↦ false | some t ↦ leb (t + threshold) now ]

abbrev pub unlocked : Event → Event
unlocked e = record e { status = EventStatus.pending; locked_by = none; locked_at = none }

module _ (o : Orm) where
  -- The number of events unlocked.
  unfoldable pub unlock_stale_events : ℕ → ℕ → OutboxService o ℕ
  unlock_stale_events now threshold = do
    n ← gets (λ s. length (o.find_many Event (is_stale_lock now threshold) s.events))
    update_events o (is_stale_lock now threshold) unlocked
    pure n
