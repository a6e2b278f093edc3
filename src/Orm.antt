-- ===== src/Orm.antt =====
-- The database behind the services. The ORM is not part of the repository, so its tables and its
-- transactions are a parameter: a record of the calls that the services make, with the documented
-- behaviour that the theorems rely on. `Tables` is an implementation by lists of rows.
use meeo_server.Base.{
  ℕ, ◌+◌, ◌≡◌, Option, none, Bool, List, ◌==◌, if◌then◌else◌, some, find_in, Distinct, keep,
  measure_of,
}
use meeo_server.Base.Result.{Result, settle}

pub record Orm : Type 1 where
  pub Table : Type 0 → Type 0
  -- `findUnique` by the key of a row
  pub find : (R : Type 0) → ℕ → Table R → Option R
  -- the row under a key, written anew
  pub write : (R : Type 0) → ℕ → R → Table R → Table R
  -- `delete` by the key of a row
  pub erase : (R : Type 0) → ℕ → Table R → Table R
  -- a generated identifier
  pub fresh : (R : Type 0) → Table R → ℕ
  -- `findMany` with a filter, the rows with their keys
  pub find_many : (R : Type 0) → (R → Bool) → Table R → List (ℕ × R)
  -- the sum of a column
  pub total : (R : Type 0) → (R → ℕ) → Table R → ℕ
  -- `$transaction`
  pub transaction : (S E A : Type 0) → (S → Result E A × S) → S → Result E A × S
  pub find-write :
      (R : Type 0) (j k : ℕ) (r : R) (t : Table R)
      → find R j (write R k r t) ≡ (if k == j then some r else find R j t)
  pub find-erase :
      (R : Type 0) (j k : ℕ) (t : Table R)
      → find R j (erase R k t) ≡ (if k == j then none else find R j t)
  pub find-fresh : (R : Type 0) (t : Table R) → find R (fresh R t) t ≡ none
  pub find_in-find_many :
      (R : Type 0) (p : R → Bool) (k : ℕ) (t : Table R)
      → find_in k (find_many R p t) ≡ keep p (find R k t)
  pub find_many-Distinct : (R : Type 0) (p : R → Bool) (t : Table R) → Distinct (find_many R p t)
  pub total-write :
      (R : Type 0) (g : R → ℕ) (k : ℕ) (r : R) (t : Table R)
      → total R g (write R k r t) + measure_of g (find R k t) ≡ total R g t + g r
  pub transaction-settle :
      (S E A : Type 0) (m : S → Result E A × S) (s : S) → transaction S E A m s ≡ settle s (m s)
