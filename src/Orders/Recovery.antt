-- ===== src/Orders/Recovery.antt =====
-- A key that a crash has left in progress (`idempotency.service.ts` and `createOrder` of
-- `src/modules/orders/services`).
use meeo_server.Base.{ℕ, ◌+◌, ◌≤◌, ◌<◌, ◌≡◌, refl, some, false, arith, ◌==◌, ==_refl}
use meeo_server.Base.Result.{ok, err}
use meeo_server.Orm.{Orm}
use meeo_server.Orders.Idempotency.{
  KeyStatus, KeyError, KeyRow, Shop, locked_row, resolve_row, resolve_or_lock_key, finalized,
  finalize_key, Submission, create_and_finalize, submit,
}
use meeo_server.Orders.Replay.{stale_key_proceeds, answered_lem}

module _ (o : Orm) (B W : Type 0) where
  -- A checkout whose key another has locked for at most two minutes is refused, and changes nothing.
  refused_lem :
      (now k : ℕ) (r : KeyRow o B W) (x : Submission o B W) (s : Shop o B W)
      → x.key ≡ some k
      → o.find (KeyRow o B W) k s.keys ≡ some r
      → r.status ≡ KeyStatus.processing
      → now ≤ r.created_at + 120_000
      → submit o B W now x s ≡ (err KeyError.in_progress, s)
  unfolding submit resolve_or_lock_key resolve_row
  refused_lem now k r x s key here status fresh = ground arith

  -- What a checkout does with a lock of its own, if the order is created.
  create_lem :
      (k : ℕ) (row : KeyRow o B W) (b : B) (y : Submission o B W) (s : Shop o B W)
      → y.key ≡ some k
      → o.find (KeyRow o B W) k s.keys ≡ some row
      → (y.create s.world).0 ≡ some b
      → create_and_finalize o B W y s ≡ (
        ok b,
        record {
          keys = o.write (KeyRow o B W) k (finalized o B W 201 b row) s.keys;
          world = (y.create s.world).1;
        },
      )
  unfolding create_and_finalize finalize_key
  create_lem k row b y s key here made = ground arith

  -- A checkout has locked its key and never ended. For two minutes every checkout with the key is refused
  -- and changes nothing. After more than two minutes, a checkout with the key creates its order,
  -- if its creation does not throw, and returns the answer; the rows of other keys are as they
  -- were. From then on every checkout with the key, at any time, returns that answer and
  -- changes nothing.
  pub abandoned_key_recovers :
      (now later last k : ℕ) (r : KeyRow o B W) (b : B) (x y z : Submission o B W) (s : Shop o B W)
      → x.key ≡ some k
      → y.key ≡ some k
      → z.key ≡ some k
      → o.find (KeyRow o B W) k s.keys ≡ some r
      → r.status ≡ KeyStatus.processing
      → now ≤ r.created_at + 120_000
      → r.created_at + 120_000 < later
      → (y.create s.world).0 ≡ some b
      → (submit o B W now x s ≡ (err KeyError.in_progress, s))
        × ((s' : Shop o B W) × (submit o B W later y s ≡ (ok b, s'))
            × (s'.world ≡ (y.create s.world).1)
            × ((j : ℕ)
                → (k == j) ≡ false
                → o.find (KeyRow o B W) j s'.keys ≡ o.find (KeyRow o B W) j s.keys)
            × (submit o B W last z s' ≡ (ok b, s')))
  unfolding submit
  abandoned_key_recovers now later last k r b x y z s keyx keyy keyz here status fresh old made =
      let (s1, e1, world, rows) = stale_key_proceeds o B W later k y.user r s here status old in
      let row = locked_row o B W later y.user in
      let end = finalized o B W 201 b row in
      let at : o.find (KeyRow o B W) k s1.keys ≡ some row = ground (arith, rows k, ==_refl k) in
      let done = create_lem k row b y s1 keyy at (rw world made) in
      let s2 : Shop o B W = record {
        keys = o.write (KeyRow o B W) k end s1.keys;
        world = (y.create s1.world).1;
      } in
      let stored : o.find (KeyRow o B W) k s2.keys ≡ some end =
        ground (arith, o.find-write (KeyRow o B W) k k end s1.keys, ==_refl k) in
      (
        refused_lem now k r x s keyx here status fresh,
        (
          s2,
          ground arith,
          rw world refl,
          λ j other. ground (arith, o.find-write (KeyRow o B W) j k end s1.keys, rows j),
          answered_lem o B W last k b z s2 keyz (end, stored, refl, refl),
        ),
      )
