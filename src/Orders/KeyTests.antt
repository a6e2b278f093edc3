-- ===== src/Orders/KeyTests.antt =====
-- The theorems on idempotency keys, applied to a shop that counts its orders.
use meeo_server.Base.{ℕ, ◌+◌, ◌≡◌, refl, Option, none, some, List, [], ◌∷◌, false, arith, ◌==◌}
use meeo_server.Base.Result.{ok, err}
use meeo_server.Tables.{lists}
use meeo_server.Orders.Idempotency.{KeyStatus, KeyError, KeyRow, Shop, Submission, submit}
use meeo_server.Orders.Recovery.{abandoned_key_recovers}
use meeo_server.Orders.Once.{submit_all, submit_all-promised}

-- The answer is the number of the order.
abbrev checkout : Option ℕ → ℕ → Submission lists ℕ ℕ
checkout key user = record { key = key; user = some user; create = λ n. (some (n + 1), n + 1) }

abbrev failing : Option ℕ → Submission lists ℕ ℕ
failing key = record { key = key; user = some 1; create = λ n. (none, n) }

abbrev submissions : List (ℕ × Submission lists ℕ ℕ)
submissions =
    (1, failing (some 9))
    ∷ (2, checkout (some 9) 1)
    ∷ (3, checkout (some 9) 2)
    ∷ (4, checkout none 2)
    ∷ []

abbrev empty_shop : Shop lists ℕ ℕ
empty_shop = record { keys = []; world = 0 }

submit_all-promised_example :
    ((submit_all lists ℕ ℕ submissions empty_shop).0 ≡ none ∷ some 1 ∷ some 1 ∷ some 2 ∷ [])
    × ((submit_all lists ℕ ℕ submissions empty_shop).1.world ≡ 2)
submit_all-promised_example = submit_all-promised lists ℕ ℕ submissions [] empty_shop (λ k. refl)

abbrev stale_row : KeyRow lists ℕ ℕ
stale_row = record {
  user = none;
  status = KeyStatus.processing;
  response_status = none;
  response_body = none;
  expires_at = 5;
  created_at = 0;
}

abbrev stale_shop : Shop lists ℕ ℕ
stale_shop = record { keys = (9, stale_row) ∷ []; world = 0 }

abandoned_key_recovers_example :
    let x = checkout (some 9) 1 in
    (submit lists ℕ ℕ 120_000 x stale_shop ≡ (err KeyError.in_progress, stale_shop))
    × ((s' : Shop lists ℕ ℕ) × (submit lists ℕ ℕ 120_001 x stale_shop ≡ (ok 1, s'))
        × (s'.world ≡ 1)
        × ((j : ℕ)
            → (9 == j) ≡ false
            → lists.find (KeyRow lists ℕ ℕ) j s'.keys
              ≡ lists.find (KeyRow lists ℕ ℕ) j stale_shop.keys)
        × (submit lists ℕ ℕ 120_002 (failing (some 9)) s' ≡ (ok 1, s')))
abandoned_key_recovers_example =
    abandoned_key_recovers lists ℕ ℕ 120_000 120_001 120_002 9 stale_row 1 (checkout (some 9) 1)
      (checkout (some 9) 1) (failing (some 9)) stale_shop refl refl refl refl refl (omega arith)
      (omega arith) refl
