-- ===== src/Base/Result.antt =====
-- Results of calls that may throw, and calls that read and write a state: a call returns what it
-- returned or threw, and the state it left.
use mathlib.Core.List.{List, [], ◌∷◌}
use mathlib.Core.Bool.{Bool, true, false}
use mathlib.Core.Option.{Option, none, some}

pub data Result (E A : Type 0) : Type 0 where
  ok : A → Result E A
  err : E → Result E A

abbrev pub Action : Type 0 → Type 0 → Type 0 → Type 0
Action S E A = S → Result E A × S

module _ {S E : Type 0} where
  abbrev pub pure : {A : Type 0} → A → Action S E A
  pure a s = (ok a, s)

  abbrev pub raise : {A : Type 0} → E → Action S E A
  raise e s = (err e, s)

  abbrev pub gets : {A : Type 0} → (S → A) → Action S E A
  gets f s = (ok (f s), s)

  abbrev pub modify : (S → S) → Action S E (Unit {0})
  modify f s = (ok tt, f s)

  abbrev pub raise_if : Bool → E → Action S E (Unit {0})
  raise_if true e s = (err e, s)
  raise_if false e s = (ok tt, s)

  abbrev pub or_raise : {A : Type 0} → Option A → E → Action S E A
  or_raise none e s = (err e, s)
  or_raise (some a) e s = (ok a, s)

infixl 5 ◌>>=◌ ◌>>◌
abbrev pub ◌>>=◌ : {S E A B : Type 0} → Action S E A → (A → Action S E B) → Action S E B
◌>>=◌ m f s = let (r, s') = m s in elim r [ ok a ↦ f a s' | err e ↦ (err e, s') ]

abbrev pub ◌>>◌ : {S E A B : Type 0} → Action S E A → Action S E B → Action S E B
m >> k = m >>= λ _. k

-- What a database transaction leaves: the writes of a call that returned, or nothing of one that
-- threw.
abbrev pub settle : {S E A : Type 0} → S → Result E A × S → Result E A × S
settle s (ok a, s') = (ok a, s')
settle s (err e, s') = (err e, s)

-- A `for … of` loop, with what its rounds returned; a round that throws ends it.
unfoldable pub for_each : {S E A B : Type 0} → (A → Action S E B) → List A → Action S E (List B)
for_each body [] s = (ok [], s)
for_each body (x ∷ xs) s = (do b ← body x; bs ← for_each body xs; pure (b ∷ bs)) s
