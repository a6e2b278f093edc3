-- ===== src/Orders/Once.antt =====
-- Checkouts with idempotency keys, one after another (`createOrder` of
-- `src/modules/orders/services/orderCreation.service.ts`).
use meeo_server.Base.{
  ℕ, ◌≡◌, refl, sym, ◌∙◌, ap, subst, ◌⊎◌, inl, inr, Option, none, some, List, [], ◌∷◌, arith, ◌==◌,
  ==_iff, find_in, Option-cases, Bool-cases,
}
use meeo_server.Base.Result.{Result, ok}
use meeo_server.Orm.{Orm}
use meeo_server.Orders.Idempotency.{
  KeyError, KeyRow, Shop, locked_row, finalized, Submission, submit,
}
use meeo_server.Orders.Replay.{
  Holds, IsSettled, answer_of, remember, returned, answered_lem, keyless_lem, locks, made_lem,
  thrown_lem,
}

module _ (o : Orm) (B W : Type 0) where
  -- A checkout is answered, or creates an order, whose answer is remembered.
  abbrev Steps :
      ℕ → Submission o B W → List (ℕ × B) → Shop o B W → Result KeyError B × Shop o B W → Type 0
  Steps now x done s out =
      ((b : B) × (answer_of o B W x.key done ≡ some b) × (out ≡ (ok b, s)))
      ⊎ ((answer_of o B W x.key done ≡ none)
          × (returned o B W out.0 ≡ (x.create s.world).0)
          × (out.1.world ≡ (x.create s.world).1)
          × IsSettled o B W (remember o B W x.key (x.create s.world).0 done) out.1)

  module _ (now k : ℕ) (x : Submission o B W) (done : List (ℕ × B)) (s : Shop o B W)
      (key : x.key ≡ some k) (new : find_in k done ≡ none) (h : IsSettled o B W done s) where
    free : o.find (KeyRow o B W) k s.keys ≡ none
    free = subst (λ a. Holds o B W a (o.find (KeyRow o B W) k s.keys)) new (h k)

    made_step : (b : B) → (x.create s.world).0 ≡ some b → Steps now x done s (submit o B W now x s)
    made_step b made =
        let row = locked_row o B W now x.user in
        let end = finalized o B W 201 b row in
        let t = o.write (KeyRow o B W) k row s.keys in
        let eq = locks o B W now k x s key free ∙ made_lem o B W now k x s key free b made in
        rw eq (
          inr (
            ground arith,
            sym made,
            refl,
            rw (key, made)
                (λ j. elim (Bool-cases (k == j)) [
                  | inl same ↦
                      let at : o.find (KeyRow o B W) j (o.write (KeyRow o B W) k end t) ≡ some end =
                        ground (arith, o.find-write (KeyRow o B W) j k end t) in
                      let known : find_in j ((k, b) ∷ done) ≡ some b = ground arith in
                      rw (known) (end, at, refl, refl)
                  | inr other ↦
                      let at : o.find (KeyRow o B W) j (o.write (KeyRow o B W) k end t)
                          ≡ o.find (KeyRow o B W) j s.keys =
                        ground (
                          arith,
                          o.find-write (KeyRow o B W) j k end t,
                          o.find-write (KeyRow o B W) j k row s.keys,
                        ) in
                      let known : find_in j ((k, b) ∷ done) ≡ find_in j done = ground arith in
                      rw (known, at) (h j)
                ]),
          ))

    thrown_step : (x.create s.world).0 ≡ none → Steps now x done s (submit o B W now x s)
    thrown_step thrown =
        let row = locked_row o B W now x.user in
        let t = o.write (KeyRow o B W) k row s.keys in
        let eq = locks o B W now k x s key free ∙ thrown_lem o B W now k x s key free thrown in
        rw eq (
          inr (
            ground arith,
            sym thrown,
            refl,
            rw (key, thrown)
                (λ j.
                  let at : o.find (KeyRow o B W) j (o.erase (KeyRow o B W) k t)
                      ≡ o.find (KeyRow o B W) j s.keys =
                    ground (
                      arith,
                      o.find-erase (KeyRow o B W) j k t,
                      o.find-write (KeyRow o B W) j k row s.keys,
                      free,
                      ==_iff k j,
                    ) in
                  rw at (h j)),
          ))

  keyless_step :
      (now : ℕ) (x : Submission o B W) (done : List (ℕ × B)) (s : Shop o B W)
      → x.key ≡ none
      → IsSettled o B W done s
      → Steps now x done s (submit o B W now x s)
  keyless_step now x done s key h =
      let (result, after) = keyless_lem o B W now x s key in
      let made = (x.create s.world).0 in
      let same : remember o B W x.key made done ≡ done =
        ap (λ (k : Option ℕ). remember o B W k made done) key in
      inr (
        ground arith,
        result,
        ap (λ (z : Shop o B W). z.world) after,
        λ j.
            let row = ap (λ (z : Shop o B W). o.find (KeyRow o B W) j z.keys) after in
            subst
              (λ d.
                Holds o B W (find_in j d) (o.find (KeyRow o B W) j (submit o B W now x s).1.keys))
              (sym same) (subst (λ r. Holds o B W (find_in j done) r) (sym row) (h j)),
      )

  submit-Steps :
      (now : ℕ) (x : Submission o B W) (done : List (ℕ × B)) (s : Shop o B W)
      → IsSettled o B W done s
      → Steps now x done s (submit o B W now x s)
  submit-Steps now x done s h = elim (Option-cases x.key) [
    | inl key ↦ keyless_step now x done s key h
    | inr (k, key) ↦ elim (Option-cases (find_in k done)) [
      | inr (b, known) ↦
          let held = subst (λ a. Holds o B W a (o.find (KeyRow o B W) k s.keys)) known (h k) in
          inl (b, ground arith, answered_lem o B W now k b x s key held)
      | inl new ↦ elim (Option-cases (x.create s.world).0) [
        | inl thrown ↦ thrown_step now k x done s key new h thrown
        | inr (b, made) ↦ made_step now k x done s key new h b made
      ]
    ]
  ]

  -- Checkouts one after another, each at its time: what each returned, if it did, and what they left.
  pub submit_all : List (ℕ × Submission o B W) → Shop o B W → List (Option B) × Shop o B W
  submit_all [] s = ([], s)
  submit_all ((now, x) ∷ l) s =
      let (r, s') = submit o B W now x s in
      let (rs, s2) = submit_all l s' in (returned o B W r ∷ rs, s2)

  -- What they should do: an answered key gives its answer, and any other checkout creates an order.
  abbrev pub promised : List (ℕ × Submission o B W) → List (ℕ × B) → W → List (Option B) × W
  promised [] done w = ([], w)
  promised ((now, x) ∷ l) done w =
      let (made, w') = x.create w in
      let (as', w2) = promised l (remember o B W x.key made done) w' in
      let (bs, w3) = promised l done w in
      elim (answer_of o B W x.key done) [ some b ↦ (some b ∷ bs, w3) | none ↦ (made ∷ as', w2) ]

  -- Where the table holds the answered keys with their answers, a sequence of checkouts, each with a
  -- key or none, at any times, returns and leaves what `promised` says: a checkout whose key has been
  -- answered returns that answer and creates nothing, whoever sends it; a failed one frees its key.
  pub submit_all-promised :
      (l : List (ℕ × Submission o B W)) (done : List (ℕ × B)) (s : Shop o B W)
      → IsSettled o B W done s
      → ((submit_all l s).0 ≡ (promised l done s.world).0)
        × ((submit_all l s).1.world ≡ (promised l done s.world).1)
  unfolding submit_all
  submit_all-promised [] done s h = (refl, refl)
  submit_all-promised ((now, x) ∷ l) done s h = elim (submit-Steps now x done s h) [
    | inl (b, known, out) ↦ let ih = submit_all-promised l done s h in (ground arith, ground arith)
    | inr (new, result, world, settled) ↦
        let s' = (submit o B W now x s).1 in
        let ih =
          submit_all-promised l (remember o B W x.key (x.create s.world).0 done) s' settled in
        (ground arith, ground arith)
  ]
