-- ===== src/Orders/Replay.antt =====
-- What idempotency keys promise of checkouts (`idempotency.service.ts` and `createOrder` of
-- `src/modules/orders/services`).
use meeo_server.Base.{
  ℕ, ◌+◌, ◌<◌, ◌≡◌, refl, inl, inr, Option, none, some, List, ◌∷◌, arith, ◌==◌, ==_refl,
  if◌then◌else◌, find_in, Option-cases,
}
use meeo_server.Base.Result.{Result, ok, err}
use meeo_server.Orm.{Orm}
use meeo_server.Orders.Idempotency.{
  KeyStatus, KeyError, KeyRow, Shop, locked_row, lock_key, resolve_row, resolve_or_lock_key,
  finalized, finalize_key, release_key, Submission, create_and_finalize, submit,
}

module _ (o : Orm) (B W : Type 0) where
  -- A key that was left in progress more than two minutes ago is locked anew.
  pub stale_key_proceeds :
      (now key : ℕ) (user : Option ℕ) (r : KeyRow o B W) (s : Shop o B W)
      → o.find (KeyRow o B W) key s.keys ≡ some r
      → r.status ≡ KeyStatus.processing
      → r.created_at + 120_000 < now
      → (s' : Shop o B W) × (resolve_or_lock_key o B W now (some key) user s ≡ (ok none, s'))
        × (s'.world ≡ s.world)
        × ((j : ℕ)
            → o.find (KeyRow o B W) j s'.keys ≡ (
                if key == j
                then some (locked_row o B W now user)
                else o.find (KeyRow o B W) j s.keys))
  unfolding resolve_or_lock_key resolve_row lock_key
  stale_key_proceeds now key user r s here status old =
      let t = o.erase (KeyRow o B W) key s.keys in
      let gone : o.find (KeyRow o B W) key t ≡ none =
        ground (arith, o.find-erase (KeyRow o B W) key key s.keys, ==_refl key) in
      (
        record s { keys = o.write (KeyRow o B W) key (locked_row o B W now user) t },
        ground arith,
        refl,
        λ j. ground (
          arith,
          o.find-write (KeyRow o B W) j key (locked_row o B W now user) t,
          o.find-erase (KeyRow o B W) j key s.keys,
        ),
      )

  -- What the table holds of a key that has been answered, or has not.
  abbrev pub Holds : Option B → Option (KeyRow o B W) → Type 0
  Holds none row = row ≡ none
  Holds (some b) row =
      (r : KeyRow o B W) × (row ≡ some r)
      × (r.status ≡ KeyStatus.completed)
      × (r.response_body ≡ some b)

  -- The keys of the table are those that have been answered, with their answers.
  abbrev pub IsSettled : List (ℕ × B) → Shop o B W → Type 0
  IsSettled done s = (k : ℕ) → Holds (find_in k done) (o.find (KeyRow o B W) k s.keys)

  abbrev pub answer_of : Option ℕ → List (ℕ × B) → Option B
  answer_of none done = none
  answer_of (some k) done = find_in k done

  abbrev pub remember : Option ℕ → Option B → List (ℕ × B) → List (ℕ × B)
  remember none made done = done
  remember (some k) none done = done
  remember (some k) (some b) done = (k, b) ∷ done

  abbrev pub returned : Result KeyError B → Option B
  returned (ok b) = some b
  returned (err e) = none

  -- A checkout with an answered key returns the answer and does nothing.
  pub answered_lem :
      (now k : ℕ) (b : B) (x : Submission o B W) (s : Shop o B W)
      → x.key ≡ some k
      → Holds (some b) (o.find (KeyRow o B W) k s.keys)
      → submit o B W now x s ≡ (ok b, s)
  unfolding submit resolve_or_lock_key resolve_row
  answered_lem now k b x s key (r, here, status, body) = ground arith

  -- A checkout with no key.
  pub keyless_lem :
      (now : ℕ) (x : Submission o B W) (s : Shop o B W)
      → x.key ≡ none
      → (returned (submit o B W now x s).0 ≡ (x.create s.world).0)
        × ((submit o B W now x s).1 ≡ record s { world = (x.create s.world).1 })
  unfolding submit resolve_or_lock_key create_and_finalize finalize_key release_key
  keyless_lem now x s key = elim (Option-cases (x.create s.world).0) [
    | inl thrown ↦ (ground arith, ground arith)
    | inr (b, made) ↦ (ground arith, ground arith)
  ]

  -- A checkout with a new key.
  module _ (now k : ℕ) (x : Submission o B W) (s : Shop o B W) (key : x.key ≡ some k)
      (free : o.find (KeyRow o B W) k s.keys ≡ none) where
    abbrev pub locked : o.Table (KeyRow o B W)
    locked = o.write (KeyRow o B W) k (locked_row o B W now x.user) s.keys

    abbrev pub locked_shop : Shop o B W
    locked_shop = record { keys = locked; world = s.world }

    pub locks : submit o B W now x s ≡ create_and_finalize o B W x locked_shop
    unfolding submit resolve_or_lock_key lock_key
    locks = ground arith

    pub made_lem :
        (b : B)
        → (x.create s.world).0 ≡ some b
        → create_and_finalize o B W x locked_shop ≡ (
          ok b,
          record {
            keys =
                o.write
                  (KeyRow o B W)
                  k
                  (finalized o B W 201 b (locked_row o B W now x.user))
                  locked;
            world = (x.create s.world).1;
          },
        )
    unfolding create_and_finalize finalize_key
    made_lem b made =
        let here : o.find (KeyRow o B W) k locked ≡ some (locked_row o B W now x.user) = ground (
          arith,
          o.find-write (KeyRow o B W) k k (locked_row o B W now x.user) s.keys,
          ==_refl k,
        ) in
        ground arith

    pub thrown_lem :
        (x.create s.world).0 ≡ none
        → create_and_finalize o B W x locked_shop ≡ (
          err KeyError.creation_failed,
          record { keys = o.erase (KeyRow o B W) k locked; world = (x.create s.world).1 },
        )
    unfolding create_and_finalize release_key
    thrown_lem thrown = ground arith
