-- ===== src/Outbox/Rules.antt =====
-- When a row of the outbox is in order, and the writes that keep it so (`outboxPublisher.service.ts`,
-- `outboxRetry.service.ts`).
use meeo_server.Base.{
  ℕ, suc, ◌≤◌, ◌<◌, ◌≡◌, Option, none, some, Bool, true, false, not, ◌&&◌, List, arith, leb, ltb,
}
use meeo_server.Outbox.Events.{EventStatus, Event}
use meeo_server.Outbox.Retry.{is_stale_lock, unlocked}
use meeo_server.Outbox.Publisher.{
  is_claimable, claimed, published_at_time, given_up, postponed, reset,
}

abbrev pub is_locked : Event → Bool
is_locked e = elim e.locked_at [ none ↦ false | some _ ↦ true ]

-- An event admits an attempt. It is locked exactly while it is PROCESSING; it waits or is in process
-- only with an attempt left, and is FAILED only when its attempts are used up.
abbrev pub is_orderly : Event → Bool
is_orderly e = ltb 0 e.max_attempts && elim e.status [
  | EventStatus.pending ↦ not (is_locked e) && ltb e.attempts e.max_attempts
  | EventStatus.processing ↦ is_locked e && ltb e.attempts e.max_attempts
  | EventStatus.published ↦ not (is_locked e)
  | EventStatus.failed ↦ not (is_locked e) && leb e.max_attempts e.attempts
]

abbrev pub IsOrderlyRow : Option Event → Type 0
IsOrderlyRow none = Unit
IsOrderlyRow (some e) = is_orderly e ≡ true

pub unlocked-is_orderly :
    (now t : ℕ) (e : Event)
    → is_orderly e ≡ true
    → is_stale_lock now t e ≡ true
    → is_orderly (unlocked e) ≡ true
unlocked-is_orderly now t e h p = ground arith

pub claimed-is_orderly :
    (now p : ℕ) (ids : List ℕ) (e : Event)
    → is_orderly e ≡ true
    → is_claimable ids e ≡ true
    → is_orderly (claimed now p e) ≡ true
claimed-is_orderly now p ids e h c = ground arith

pub published-is_orderly :
    (now : ℕ) (e : Event) → is_orderly e ≡ true → is_orderly (published_at_time now e) ≡ true
published-is_orderly now e h = ground arith

pub given_up-is_orderly :
    (e : Event)
    → is_orderly e ≡ true
    → e.max_attempts ≤ suc e.attempts
    → is_orderly (given_up (suc e.attempts) e) ≡ true
given_up-is_orderly e h l = ground arith

pub postponed-is_orderly :
    (t : ℕ) (e : Event)
    → is_orderly e ≡ true
    → suc e.attempts < e.max_attempts
    → is_orderly (postponed (suc e.attempts) t e) ≡ true
postponed-is_orderly t e h l = ground arith

pub reset-is_orderly : (e : Event) → is_orderly e ≡ true → is_orderly (reset e) ≡ true
reset-is_orderly e h = ground arith
