-- ===== src/Orders/Idempotency.antt =====
-- `src/modules/orders/services/idempotency.service.ts`, over the rows of
-- `prisma/schema/Infrastructure/idempotencyKey.prisma`, and its use by `createOrder`
-- (`orderCreation.service.ts`). The creation of the order itself is a parameter: what it returns, unless
-- it throws, and what it leaves. A key stands for its text, the unique key of its row.
use meeo_server.Base.{ℕ, ◌+◌, true, false, Option, none, some, ltb}
use meeo_server.Base.Result.{ok, err, Action, ◌>>=◌, pure, gets}
use meeo_server.Orm.{Orm}

pub data KeyStatus : Type 0 where
  processing completed failed : KeyStatus

pub data KeyError : Type 0 where
  in_progress creation_failed : KeyError

module _ (o : Orm) (B W : Type 0) where
  pub record KeyRow : Type 0 where
    pub user : Option ℕ
    pub status : KeyStatus
    pub response_status : Option ℕ
    pub response_body : Option B
    pub expires_at : ℕ
    pub created_at : ℕ

  pub record Shop : Type 0 where
    pub keys : o.Table KeyRow
    pub world : W

  abbrev pub KeyService : Type 0 → Type 0
  KeyService A = Action Shop KeyError A

  abbrev pub locked_row : ℕ → Option ℕ → KeyRow
  locked_row now user = record {
    user = user;
    status = KeyStatus.processing;
    response_status = none;
    response_body = none;
    expires_at = now + 86_400_000;
    created_at = now;
  }

  -- `create`, which throws on a key that is there.
  unfoldable pub lock_key : ℕ → ℕ → Option ℕ → KeyService (Option B)
  lock_key now key user s = elim (o.find KeyRow key s.keys) [
    | some r ↦ (err KeyError.in_progress, s)
    | none ↦ (ok none, record s { keys = o.write KeyRow key (locked_row now user) s.keys })
  ]

  abbrev pub erase_key : ℕ → Shop → Shop
  erase_key key s = record s { keys = o.erase KeyRow key s.keys }

  -- What a row of the key decides: a stored body, a refusal, or the lock.
  unfoldable pub resolve_row : ℕ → ℕ → Option ℕ → KeyStatus → KeyRow → KeyService (Option B)
  resolve_row now key user KeyStatus.completed r s = elim r.response_body [
    | some body ↦ (ok (some body), s)
    | none ↦ lock_key now key user s
  ]
  resolve_row now key user KeyStatus.processing r s = elim (ltb (r.created_at + 120_000) now) [
    | true ↦ lock_key now key user (erase_key key s)
    | false ↦ (err KeyError.in_progress, s)
  ]
  resolve_row now key user KeyStatus.failed r s = lock_key now key user s

  -- The stored body, if there is one.
  unfoldable pub resolve_or_lock_key : ℕ → Option ℕ → Option ℕ → KeyService (Option B)
  resolve_or_lock_key now none user = pure none
  resolve_or_lock_key now (some key) user = do
    existing ← gets (λ s. o.find KeyRow key s.keys)
    elim existing [ none ↦ lock_key now key user | some r ↦ resolve_row now key user r.status r ]

  abbrev pub finalized : ℕ → B → KeyRow → KeyRow
  finalized status body r = record r {
    status = KeyStatus.completed;
    response_status = some status;
    response_body = some body;
  }

  -- A key that is gone is passed over.
  unfoldable pub finalize_key : Option ℕ → ℕ → B → Shop → Shop
  finalize_key none status body s = s
  finalize_key (some key) status body s = elim (o.find KeyRow key s.keys) [
    | none ↦ s
    | some r ↦ record s { keys = o.write KeyRow key (finalized status body r) s.keys }
  ]

  unfoldable pub release_key : Option ℕ → Shop → Shop
  release_key none s = s
  release_key (some key) s = erase_key key s

  -- A checkout: its key and its user, and the creation of the order.
  pub record Submission : Type 0 where
    pub key : Option ℕ
    pub user : Option ℕ
    pub create : W → Option B × W

  -- The `try` and the `catch` of `createOrder`.
  unfoldable pub create_and_finalize : Submission → KeyService B
  create_and_finalize x s =
      let (made, w) = x.create s.world in
      let after : Shop = record { keys = s.keys; world = w } in
      elim made [
        | some body ↦ (ok body, finalize_key x.key 201 body after)
        | none ↦ (err KeyError.creation_failed, release_key x.key after)
      ]

  unfoldable pub submit : ℕ → Submission → KeyService B
  submit now x = do
    cached ← resolve_or_lock_key now x.key x.user
    elim cached [ some body ↦ pure body | none ↦ create_and_finalize x ]
