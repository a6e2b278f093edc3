-- ===== src/Inventory/Refinement.antt =====
-- The services of `src/modules/inventory/services` and `orderInventory.service.ts` implement the pools
-- of `Pool`: each request is, for each variant, a run of acts on its pool.
use mathlib.Core.Option
use meeo_server.Base.{
  ℕ, ◌≡◌, refl, subst, inl, inr, Option, some, arith, Option-cases, Bool-cases, ◌==◌, ==_iff,
}
use meeo_server.Base.Int.{pos, pos_part, ◌≤ℤ◌, +ℤ_parts, -ℤ_parts}
use meeo_server.Base.Result.{Result, ok, err, settle}
use meeo_server.Orm.{Orm}
use meeo_server.Store.{Inventory, State, Service, Error, in_transaction}
use meeo_server.Inventory.Holds.{set_aside, give_back, commit}
use meeo_server.Inventory.Balance.{IsSound, held}
use meeo_server.Inventory.Pool.{Pool, Kind, Act, Run, Run-append}

abbrev pub pool_of : Inventory → Pool
pool_of i = record { free = pos_part i.available; held = pos_part i.reserved }

pub set_aside-Act :
    (q : ℕ) (i : Inventory)
    → pos q ≤ℤ i.available
    → pos 0 ≤ℤ i.reserved
    → Act (Kind.held q) (some (pool_of i)) (some (pool_of (set_aside q i)))
set_aside-Act q i enough counted =
    Act.hold (ground (arith, -ℤ_parts i.available (pos q)))
      (ground (arith, +ℤ_parts i.reserved (pos q)))

pub give_back-Act :
    (q : ℕ) (i : Inventory)
    → pos 0 ≤ℤ i.available
    → pos 0 ≤ℤ i.reserved
    → pos 0 ≤ℤ (give_back q i).reserved
    → Act (Kind.freed q) (some (pool_of i)) (some (pool_of (give_back q i)))
give_back-Act q i stocked counted left =
    Act.release (ground (arith, +ℤ_parts i.available (pos q)))
      (ground (arith, -ℤ_parts i.reserved (pos q)))

pub commit-Act :
    (q : ℕ) (i : Inventory)
    → pos 0 ≤ℤ i.reserved
    → pos 0 ≤ℤ (commit q i).reserved
    → Act (Kind.sold q) (some (pool_of i)) (some (pool_of (commit q i)))
commit-Act q i counted left = Act.sell refl (ground (arith, -ℤ_parts i.reserved (pos q)))

module _ (o : Orm) where
  -- The pool of a variant: what is available is free, and what active reservations have is held.
  pub pool_at : ℕ → State o → Option Pool
  pool_at v s =
      Option.map (λ i. record { free = pos_part i.available; held = held o v s.reservations })
        (o.find Inventory v s.inventory)

  -- The same pool, by the stock row alone.
  unfoldable pub row_at : ℕ → State o → Option Pool
  row_at v s = Option.map pool_of (o.find Inventory v s.inventory)

  pub pool_at-row : (v : ℕ) (s : State o) → IsSound o s → pool_at v s ≡ row_at v s
  unfolding pool_at row_at
  pool_at-row v s c = elim (Option-cases (o.find Inventory v s.inventory)) [
    | inl e ↦ rw e
    | inr (i, e) ↦ ground (arith, c.balanced v)
  ]

  module _ (allowed : ℕ → Kind → Type 0) where
    -- Every variant's row goes by acts of the kinds allowed for it.
    unfoldable pub Follows : State o → State o → Type 0
    unfolding row_at
    Follows s s' = (v : ℕ) → Run (allowed v) (row_at v s) (row_at v s')

    pub Follows-refl : (s : State o) → Follows s s
    unfolding Follows
    Follows-refl s v = Run.done

    pub Follows-trans : (s t u : State o) → Follows s t → Follows t u → Follows s u
    unfolding Follows
    Follows-trans s t u f g v = Run-append (f v) (g v)

    pub Follows-same : (s s' : State o) → s'.inventory ≡ s.inventory → Follows s s'
    unfolding Follows row_at
    Follows-same s s' e v = rw e Run.done

    -- A row written by one act, the others kept.
    pub Follows-write :
        (v : ℕ) (i' : Inventory) (s s' : State o) (k : Kind)
        → s'.inventory ≡ o.write Inventory v i' s.inventory
        → allowed v k
        → Act k (row_at v s) (some (pool_of i'))
        → Follows s s'
    unfolding Follows row_at
    Follows-write v i' s s' k e permit a w = elim (Bool-cases (v == w)) [
      | inl same ↦
          let here : v ≡ w = (==_iff v w).0 same in
          let at : o.find Inventory w s'.inventory ≡ some i' =
            ground (arith, o.find-write Inventory w v i' s.inventory) in
          rw at (
            subst
              (λ j.
                Run (allowed j) (Option.map pool_of (o.find Inventory j s.inventory))
                  (some (pool_of i')))
              here (Run.next permit a Run.done))
      | inr other ↦
          let at : o.find Inventory w s'.inventory ≡ o.find Inventory w s.inventory =
            ground (arith, o.find-write Inventory w v i' s.inventory) in
          rw at Run.done
    ]

    -- A transaction follows its body, or does nothing.
    pub in_transaction-Follows :
        {A : Type 0} (m : Service o A) (s : State o)
        → Follows s (m s).1
        → Follows s (in_transaction o m s).1
    in_transaction-Follows {A} m s after =
        go (m s) after (o.transaction-settle (State o) Error A m s)
      where
        go :
            (r : Result Error A × State o)
            → Follows s r.1
            → in_transaction o m s ≡ settle s r
            → Follows s (in_transaction o m s).1
        go (ok a, s') h e = rw e h
        go (err x, s') h e = rw e (Follows-refl s)
