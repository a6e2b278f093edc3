-- ===== src/Outbox/Records.antt =====
-- `runWithConsumerIdempotency` (`src/modules/outbox/services/processedEvent.service.ts`): its rows,
-- and which of them are completed.
use meeo_server.Base.{
  ℕ, ◌≡◌, refl, sym, ◌∙◌, subst, inl, inr, some, Bool, true, false, ◌&&◌, ◌||◌, List, [], ◌∷◌,
  arith, ◌==◌, ==_iff, ==_refl, if◌then◌else◌, Bool-cases, Option-cases,
}
use meeo_server.Base.Result.{ok}
use meeo_server.Orm.{Orm}
use meeo_server.Store.Rows.{find_first-found, find_first-none}
use meeo_server.Outbox.Consumption.{
  is_completed, Processed, Desk, is_for, row_for, resumed, first_attempt, upsert_row, is_done,
}

abbrev pub has_pair : ℕ → ℕ → List (ℕ × ℕ) → Bool
has_pair e c [] = false
has_pair e c ((a, b) ∷ l) = ((a == e) && (b == c)) || has_pair e c l

module _ (o : Orm) where
  -- An event and a consumer have one row at most.
  abbrev pub IsUnique : o.Table Processed → Type 0
  IsUnique t =
      (j k : ℕ) (a b : Processed)
      → o.find Processed j t ≡ some a
      → o.find Processed k t ≡ some b
      → a.event ≡ b.event
      → a.consumer ≡ b.consumer
      → j ≡ k

  -- The completed rows are those of the listed pairs.
  pub record IsRecorded (done : List (ℕ × ℕ)) (t : o.Table Processed) : Type 0 where
    pub stored :
        (e c : ℕ)
        → has_pair e c done ≡ true
        → (k : ℕ) × (r : Processed) × (o.find Processed k t ≡ some r)
          × (r.event ≡ e)
          × (r.consumer ≡ c)
          × (is_completed r.status ≡ true)
    pub listed :
        (k : ℕ) (r : Processed)
        → o.find Processed k t ≡ some r
        → is_completed r.status ≡ true
        → has_pair r.event r.consumer done ≡ true

  module _ (W : Type 0) (e c : ℕ) (s : Desk o W) (unique : IsUnique s.rows) where
    row_for_lem :
        (k : ℕ) (r : Processed)
        → o.find Processed k s.rows ≡ some r
        → r.event ≡ e
        → r.consumer ≡ c
        → row_for o W e c s ≡ some (k, r)
    row_for_lem k r here ee cc' = elim (Option-cases (row_for o W e c s)) [
      | inl missing ↦ absurd (
          ground (
            arith,
            find_first-none o (is_for o W e c) s.rows k r missing here,
            ==_refl e,
            ==_refl c,
          ))
      | inr ((j, x), found) ↦
          let (there, passes) = find_first-found o (is_for o W e c) s.rows j x found in
          let same : j ≡ k = ground (arith, unique j k x r there here) in
          let row : x ≡ r = ground arith in ground arith
    ]

    pub is_done_lem :
        (done : List (ℕ × ℕ))
        → IsRecorded done s.rows
        → is_done o W (row_for o W e c s) ≡ has_pair e c done
    is_done_lem done h = elim (Bool-cases (has_pair e c done)) [
      | inl has ↦
          let (k, r, here, ee, ec, full) = h.stored e c has in
          ground (arith, row_for_lem k r here ee ec)
      | inr has ↦ elim (Option-cases (row_for o W e c s)) [
        | inl missing ↦ ground arith
        | inr ((j, x), found) ↦
            let (there, passes) = find_first-found o (is_for o W e c) s.rows j x found in
            ground (arith, h.listed j x there)
      ]
    ]

    -- The row of the pair after the `upsert`: it is the only one, and it was not completed before.
    pub upsert_lem :
        is_done o W (row_for o W e c s) ≡ false
        → (k : ℕ) × (r : Processed) × (upsert_row o W e c s
            ≡ (ok k, record s { rows = o.write Processed k r s.rows }))
          × (r.event ≡ e)
          × (r.consumer ≡ c)
          × ((j : ℕ) (x : Processed)
              → o.find Processed j s.rows ≡ some x
              → x.event ≡ e
              → x.consumer ≡ c
              → j ≡ k)
          × ((x : Processed)
              → o.find Processed k s.rows ≡ some x
              → (x.event ≡ e) × (x.consumer ≡ c) × (is_completed x.status ≡ false))
    unfolding upsert_row
    upsert_lem open_row = elim (Option-cases (row_for o W e c s)) [
      | inl missing ↦
          let k = o.fresh Processed s.rows in
          (
            k,
            first_attempt o W e c,
            ground arith,
            refl,
            refl,
            λ j x there ee ec. absurd (ground (arith, row_for_lem j x there ee ec)),
            λ x there. absurd (ground (arith, o.find-fresh Processed s.rows)),
          )
      | inr ((k, r), found) ↦
          let (here, passes) = find_first-found o (is_for o W e c) s.rows k r found in
          let ee : r.event ≡ e = ground arith in
          let ec : r.consumer ≡ c = ground arith in
          (
            k,
            resumed o W r,
            ground arith,
            ee,
            ec,
            λ j x there xe xc. unique j k x r there here (xe ∙ sym ee) (xc ∙ sym ec),
            λ x there. ground arith,
          )
    ]

  -- The row of a pair, which was not completed, is written twice.
  module _ (e c k : ℕ) (r1 r2 : Processed) (t : o.Table Processed) (unique : IsUnique t)
      (of_event : r2.event ≡ e) (of_consumer : r2.consumer ≡ c)
      (only : (j : ℕ) (x : Processed)
        → o.find Processed j t ≡ some x
        → x.event ≡ e
        → x.consumer ≡ c
        → j ≡ k)
      (before : (x : Processed)
        → o.find Processed k t ≡ some x
        → (x.event ≡ e) × (x.consumer ≡ c) × (is_completed x.status ≡ false)) where
    abbrev pub last : o.Table Processed
    last = o.write Processed k r2 (o.write Processed k r1 t)

    find-last :
        (j : ℕ) → o.find Processed j last ≡ (if k == j then some r2 else o.find Processed j t)
    find-last j = ground (
      arith,
      o.find-write Processed j k r2 (o.write Processed k r1 t),
      o.find-write Processed j k r1 t,
    )

    pub last-IsUnique : IsUnique last
    last-IsUnique i j a b e1 e2 same_event same_consumer =
        ground (arith, find-last i, find-last j, only i a, only j b, unique i j a b)

    kept :
        (j : ℕ) (x : Processed)
        → o.find Processed j t ≡ some x
        → is_completed x.status ≡ true
        → o.find Processed j last ≡ some x
    kept j x there full = elim (Bool-cases (k == j)) [
      | inl same ↦
          let at : o.find Processed k t ≡ some x =
            subst (λ i. o.find Processed i t ≡ some x) (sym ((==_iff k j).0 same)) there in
          absurd (ground (arith, before x at))
      | inr other ↦ ground (arith, find-last j)
    ]

    pub last-IsRecorded :
        (done : List (ℕ × ℕ)) (full : Bool)
        → is_completed r2.status ≡ full
        → IsRecorded done t
        → IsRecorded (if full then (e, c) ∷ done else done) last
    last-IsRecorded done true eq h = record {
      stored = λ a b has. elim (Bool-cases ((e == a) && (c == b))) [
        | inl same ↦ (k, r2, ground (arith, find-last k, ==_refl k), ground arith, ground arith, eq)
        | inr other ↦
            let (j, x, there, xa, xb, full) = h.stored a b (ground arith) in
            (j, x, kept j x there full, xa, xb, full)
      ];
      listed = λ j x there full. ground (arith, find-last j, h.listed j x, ==_refl e, ==_refl c);
    }
    last-IsRecorded done false eq h = record {
      stored = λ a b has.
          let (j, x, there, xa, xb, full) = h.stored a b has in
          (j, x, kept j x there full, xa, xb, full);
      listed = λ j x there full. ground (arith, find-last j, h.listed j x);
    }
