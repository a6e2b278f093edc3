-- ===== src/Store/Rows.antt =====
-- What `updateMany` and `findFirst` do to a table, from the laws of `Orm`.
use mathlib.Core.Option
use meeo_server.Base.{
  ℕ, ◌≡◌, refl, Option, none, some, Bool, true, false, List, [], ◌∷◌, arith, ==_refl, if◌then◌else◌,
  find_in, Distinct, keep,
}
use meeo_server.Orm.{Orm}
use meeo_server.Store.Context.{rewrite_all, find_first}

module _ (o : Orm) {R : Type 0} where
  abbrev pub or_found : (R → R) → Option R → Option R → Option R
  or_found f none x = x
  or_found f (some r) x = some (f r)

  find-rewrite_all :
      (f : R → R) (l : List (ℕ × R)) (t : o.Table R) (j : ℕ)
      → Distinct l
      → o.find R j (rewrite_all o f l t) ≡ or_found f (find_in j l) (o.find R j t)
  unfolding rewrite_all
  find-rewrite_all f [] t j d = refl
  find-rewrite_all f ((k, r) ∷ l) t j d =
      ground (arith, find-rewrite_all f l (o.write R k (f r) t) j d.1, o.find-write R j k (f r) t)

  -- An `updateMany` changes the rows that pass its test, and no other.
  pub find-update_many :
      (p : R → Bool) (f : R → R) (t : o.Table R) (j : ℕ)
      → o.find R j (rewrite_all o f (o.find_many R p t) t)
        ≡ Option.map (λ r. if p r then f r else r) (o.find R j t)
  find-update_many p f t j = go (o.find R j t) refl
    where
      go :
          (x : Option R)
          → o.find R j t ≡ x
          → o.find R j (rewrite_all o f (o.find_many R p t) t)
            ≡ Option.map (λ r. if p r then f r else r) (o.find R j t)
      go none e = ground (
        arith,
        find-rewrite_all f (o.find_many R p t) t j (o.find_many-Distinct R p t),
        o.find_in-find_many R p j t,
      )
      go (some r) e = ground (
        arith,
        find-rewrite_all f (o.find_many R p t) t j (o.find_many-Distinct R p t),
        o.find_in-find_many R p j t,
      )

  -- A row that `findFirst` returns stands in the table and passes the test.
  pub find_first-found :
      (p : R → Bool) (t : o.Table R) (k : ℕ) (r : R)
      → find_first o p t ≡ some (k, r)
      → (o.find R k t ≡ some r) × (p r ≡ true)
  find_first-found p t k r e = go (o.find_many R p t) refl (o.find_in-find_many R p k t)
    where
      kept : (x : Option R) → keep p x ≡ some r → (x ≡ some r) × (p r ≡ true)
      kept none h = cc
      kept (some y) h = ground arith

      go :
          (l : List (ℕ × R))
          → o.find_many R p t ≡ l
          → find_in k (o.find_many R p t) ≡ keep p (o.find R k t)
          → (o.find R k t ≡ some r) × (p r ≡ true)
      go [] h law = ground arith
      go ((j, x) ∷ l) h law = kept (o.find R k t) (ground (arith, ==_refl k))

  -- Where `findFirst` finds nothing, no row passes the test.
  pub find_first-none :
      (p : R → Bool) (t : o.Table R) (k : ℕ) (r : R)
      → find_first o p t ≡ none
      → o.find R k t ≡ some r
      → p r ≡ false
  find_first-none p t k r e stored = go (o.find_many R p t) refl (o.find_in-find_many R p k t)
    where
      go :
          (l : List (ℕ × R))
          → o.find_many R p t ≡ l
          → find_in k (o.find_many R p t) ≡ keep p (o.find R k t)
          → p r ≡ false
      go [] h law = ground arith
      go (x ∷ l) h law = ground arith
