-- ===== src/Base/Lists.antt =====
-- Lists measured by native numbers, association lists, and predicates over lists.
use Prim.Native.Nat.{ℕ, suc, ◌+◌}
use mathlib.Core.Path.{◌≡◌}
use mathlib.Core.Bool.{Bool, true, false}
use mathlib.Core.List.{List, [], ◌∷◌}
use mathlib.Core.Option.{Option, none, some}
use meeo_server.Base.Tests.{◌==◌, if◌then◌else◌}

module _ {ℓ} {A : Type ℓ} where
  abbrev pub length : List A → ℕ
  length [] = 0
  length (x ∷ xs) = suc (length xs)

  -- The sum of a measure over a list.
  abbrev pub sum_by : (A → ℕ) → List A → ℕ
  sum_by f [] = 0
  sum_by f (x ∷ xs) = f x + sum_by f xs

  abbrev pub All {κ} : (A → Type κ) → List A → Type κ
  All P [] = Unit
  All P (x ∷ xs) = P x × All P xs

  -- The value under a key, in a list of keyed values.
  abbrev pub find_in : ℕ → List (ℕ × A) → Option A
  find_in k [] = none
  find_in k ((j, x) ∷ l) = if j == k then some x else find_in k l

  -- No key occurs twice.
  abbrev pub Distinct : List (ℕ × A) → Type ℓ
  Distinct [] = Unit
  Distinct ((j, x) ∷ l) = (find_in j l ≡ none) × Distinct l

  -- A row of an optional lookup that passes a test.
  abbrev pub keep : (A → Bool) → Option A → Option A
  keep p none = none
  keep p (some a) = if p a then some a else none

  abbrev pub measure_of : (A → ℕ) → Option A → ℕ
  measure_of g none = 0
  measure_of g (some a) = g a

abbrev pub contains : ℕ → List ℕ → Bool
contains k [] = false
contains k (j ∷ l) = if j == k then true else contains k l
