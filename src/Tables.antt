-- ===== src/Tables.antt =====
-- An implementation of `Orm` by lists of rows, which shows that its laws can hold and which runs in
-- tests. Where a key occurs twice in a list, the first row counts.
use meeo_server.Base.{
  ℕ, suc, ◌+◌, ◌≤◌, ◌≡◌, refl, none, some, Bool, List, [], ◌∷◌, arith, ◌==◌, if◌then◌else◌, find_in,
  Distinct, keep, measure_of, sum_by, contains,
}
use meeo_server.Base.Result.{settle}
use meeo_server.Orm.{Orm}

module _ {R : Type 0} where
  abbrev pub write : ℕ → R → List (ℕ × R) → List (ℕ × R)
  write k r [] = (k, r) ∷ []
  write k r ((j, x) ∷ t) = if j == k then (k, r) ∷ t else (j, x) ∷ write k r t

  -- The rows that count, where the keys of `seen` have been met.
  abbrev pub live : List ℕ → List (ℕ × R) → List (ℕ × R)
  live seen [] = []
  live seen ((j, x) ∷ t) = if contains j seen then live seen t else ((j, x) ∷ live (j ∷ seen) t)

  abbrev pub erase_all : ℕ → List (ℕ × R) → List (ℕ × R)
  erase_all k [] = []
  erase_all k ((j, x) ∷ t) = if j == k then erase_all k t else (j, x) ∷ erase_all k t

  abbrev pub select : (R → Bool) → List (ℕ × R) → List (ℕ × R)
  select p [] = []
  select p ((j, x) ∷ t) = if p x then (j, x) ∷ select p t else select p t

  abbrev pub above : List (ℕ × R) → ℕ
  above [] = 0
  above ((j, x) ∷ t) = suc (j + above t)

  pub find_in-write :
      (j k : ℕ) (r : R) (t : List (ℕ × R))
      → find_in j (write k r t) ≡ (if k == j then some r else find_in j t)
  find_in-write j k r [] = refl
  find_in-write j k r ((i, x) ∷ t) = ground (arith, find_in-write j k r t)

  pub find_in-erase_all :
      (j k : ℕ) (t : List (ℕ × R))
      → find_in j (erase_all k t) ≡ (if k == j then none else find_in j t)
  find_in-erase_all j k [] = ground arith
  find_in-erase_all j k ((i, x) ∷ t) = ground (arith, find_in-erase_all j k t)

  pub find_in-above : (k : ℕ) (t : List (ℕ × R)) → above t ≤ k → find_in k t ≡ none
  find_in-above k [] h = refl
  find_in-above k ((j, x) ∷ t) h = ground (arith, find_in-above k t)

  find_in-live :
      (k : ℕ) (seen : List ℕ) (t : List (ℕ × R))
      → find_in k (live seen t) ≡ (if contains k seen then none else find_in k t)
  find_in-live k seen [] = ground arith
  find_in-live k seen ((j, x) ∷ t) =
      ground (arith, find_in-live k seen t, find_in-live k (j ∷ seen) t)

  pub live-Distinct : (seen : List ℕ) (t : List (ℕ × R)) → Distinct (live seen t)
  live-Distinct seen [] = tt
  live-Distinct seen ((j, x) ∷ t) =
      ground (arith, live-Distinct seen t, live-Distinct (j ∷ seen) t, find_in-live j (j ∷ seen) t)

  find_in-select :
      (p : R → Bool) (k : ℕ) (t : List (ℕ × R))
      → Distinct t
      → find_in k (select p t) ≡ keep p (find_in k t)
  find_in-select p k [] d = refl
  find_in-select p k ((j, x) ∷ t) d = ground (arith, find_in-select p k t d.1)

  pub find_in-selected :
      (p : R → Bool) (k : ℕ) (t : List (ℕ × R))
      → find_in k (select p (live [] t)) ≡ keep p (find_in k t)
  find_in-selected p k t =
      ground (arith, find_in-select p k (live [] t) (live-Distinct [] t), find_in-live k [] t)

  pub select-Distinct : (p : R → Bool) (t : List (ℕ × R)) → Distinct t → Distinct (select p t)
  select-Distinct p [] d = tt
  select-Distinct p ((j, x) ∷ t) d =
      ground (arith, select-Distinct p t d.1, find_in-select p j t d.1)

  abbrev pub weigh : (R → ℕ) → ℕ × R → ℕ
  weigh g (j, x) = g x

  pub total_of-write :
      (g : R → ℕ) (k : ℕ) (r : R) (seen : List ℕ) (t : List (ℕ × R))
      → sum_by (weigh g) (live seen (write k r t))
          + (if contains k seen then 0 else measure_of g (find_in k t))
        ≡ sum_by (weigh g) (live seen t) + (if contains k seen then 0 else g r)
  total_of-write g k r seen [] = ground arith
  total_of-write g k r seen ((j, x) ∷ t) =
      ground (arith, total_of-write g k r seen t, total_of-write g k r (j ∷ seen) t)

-- The tables as lists of rows, and a transaction that keeps the writes of a call that returned.
abbrev pub lists : Orm
lists = record {
  Table = λ R. List (ℕ × R);
  find = λ R k t. find_in k t;
  write = λ R k r t. write k r t;
  erase = λ R k t. erase_all k t;
  fresh = λ R t. above t;
  find_many = λ R p t. select p (live [] t);
  total = λ R g t. sum_by (weigh g) (live [] t);
  transaction = λ S E A m s. settle s (m s);
  find-write = λ R j k r t. find_in-write j k r t;
  find-erase = λ R j k t. find_in-erase_all j k t;
  find-fresh = λ R t. find_in-above (above t) t (omega arith);
  find_in-find_many = λ R p k t. find_in-selected p k t;
  find_many-Distinct = λ R p t. select-Distinct p (live [] t) (live-Distinct [] t);
  total-write = λ R g k r t. total_of-write g k r [] t;
  transaction-settle = λ S E A m s. refl;
}
