-- ===== src/Inventory/Requests.antt =====
-- The inventory operations as requests that arrive in any order, each a whole call of a service of
-- `src/modules/inventory/services`, or of `orderInventory.service.ts` in a transaction of its own.
use meeo_server.Base.{
  ℕ, ◌<◌, ◌≡◌, refl, inl, inr, Option, some, List, [], ◌∷◌, arith, All, Option-cases, Bool-cases,
}
use meeo_server.Base.Int.{pos, ltb_ℤ}
use meeo_server.Base.Result.{Result, ok, err, for_each}
use meeo_server.Orm.{Orm}
use meeo_server.Store.{Inventory, Reference, State, Error, in_transaction}
use meeo_server.Inventory.Holds.{Hold}
use meeo_server.Inventory.Reservations.{
  reserve_stock, confirm_reservation, release_reservation, expire_stale_reservations,
}
use meeo_server.Inventory.Levels.{Adjustment, get_inventory, add_stock, remove_stock, adjust_stock}
use meeo_server.Inventory.OrderHolds.{
  Requirement, reserve_item, reserve_items_for_order, release_order_reservations,
  commit_order_reservations,
}
use meeo_server.Inventory.Balance.{IsSound}
use meeo_server.Inventory.Closing.{open_hold-eq, opened_state-IsSound}
use meeo_server.Inventory.Soundness.{
  in_transaction-IsSound, reserve_stock-IsSound, release_reservation-IsSound,
  confirm_reservation-IsSound,
}
use meeo_server.Inventory.LevelStates.{
  add_stock-IsSound, remove_stock-IsSound, adjust_stock-IsSound, get_inventory-IsSound,
}
use meeo_server.Inventory.OrderStock.{release_order_reservations_lem, commit_order_reservations_lem}
use meeo_server.Inventory.Expiry.{expire_stale_reservations_lem}

pub data Request : Type 0 where
  get : ℕ → Request
  add remove : ℕ → ℕ → Option Reference → Request
  adjust : ℕ → Adjustment → Request
  reserve : ℕ → ℕ → ℕ → Option ℕ → ℕ → Request
  confirm : ℕ → ℕ → Option ℕ → Request
  release : ℕ → Request
  expire : ℕ → Request
  reserve_order : ℕ → ℕ → List Requirement → Request
  release_order : ℕ → Request
  commit_order : ℕ → Request

-- What the request schemas admit: a reserved quantity is at least 1.
abbrev pub IsAdmitted : Request → Type 0
IsAdmitted (Request.reserve now v q order minutes) = 0 < q
IsAdmitted (Request.reserve_order t order items) = All (λ item. 0 < item.quantity) items
IsAdmitted _ = Unit

module _ (o : Orm) where
  -- The state after a request, whether it returned or threw.
  unfoldable pub serve : Request → State o → State o
  serve (Request.get v) s = (get_inventory o v s).1
  serve (Request.add v q reference) s = (add_stock o v q reference s).1
  serve (Request.remove v q reference) s = (remove_stock o v q reference s).1
  serve (Request.adjust v a) s = (adjust_stock o v a s).1
  serve (Request.reserve now v q order minutes) s = (reserve_stock o now v q order minutes s).1
  serve (Request.confirm now id order) s = (confirm_reservation o now id order s).1
  serve (Request.release id) s = (release_reservation o id s).1
  serve (Request.expire now) s = (expire_stale_reservations o now s).1
  serve (Request.reserve_order t order items) s =
      (in_transaction o (reserve_items_for_order o t order items) s).1
  serve (Request.release_order order) s =
      (in_transaction o (release_order_reservations o order) s).1
  serve (Request.commit_order order) s = (in_transaction o (commit_order_reservations o order) s).1

  unfoldable pub serve_all : List Request → State o → State o
  serve_all [] s = s
  serve_all (r ∷ rs) s = serve_all rs (serve r s)

  pub reserve_item-IsSound :
      (t order : ℕ) (item : Requirement) (s : State o)
      → IsSound o s
      → 0 < item.quantity
      → IsSound o (reserve_item o t order item s).1
  unfolding reserve_item
  reserve_item-IsSound t order item s c positive =
      elim (Option-cases (o.find Inventory item.variant s.inventory)) [
        | inl e ↦ ground arith
        | inr (i, e) ↦ elim (Bool-cases (ltb_ℤ i.available (pos item.quantity))) [
          | inl short ↦ ground arith
          | inr enough ↦ ground (
            arith,
            open_hold-eq o item.variant item.quantity (some order) t (λ _. Reference.order order) i
                s e,
            opened_state-IsSound o item.variant item.quantity (some order) t
                (λ _. Reference.order order) i s c e positive (ground arith),
          )
        ]
      ]

  pub reserve_items-IsSound :
      (t order : ℕ) (items : List Requirement) (s : State o)
      → IsSound o s
      → All (λ item. 0 < item.quantity) items
      → IsSound o (for_each (reserve_item o t order) items s).1
  unfolding for_each
  reserve_items-IsSound t order [] s c positive = c
  reserve_items-IsSound t order (item ∷ items) s c (p, ps) =
      go (reserve_item o t order item s) refl (reserve_item-IsSound t order item s c p)
        (λ s' c'. reserve_items-IsSound t order items s' c' ps)
    where
      tail :
          (h : Hold) (s' : State o)
          → reserve_item o t order item s ≡ (ok h, s')
          → (r : Result Error (List Hold) × State o)
          → for_each (reserve_item o t order) items s' ≡ r
          → IsSound o r.1
          → IsSound o (for_each (reserve_item o t order) (item ∷ items) s).1
      tail h s' e (err x, s2) e2 c2 = ground arith
      tail h s' e (ok hs, s2) e2 c2 = ground arith

      go :
          (r : Result Error Hold × State o)
          → reserve_item o t order item s ≡ r
          → IsSound o r.1
          → ((s' : State o)
              → IsSound o s'
              → IsSound o (for_each (reserve_item o t order) items s').1)
          → IsSound o (for_each (reserve_item o t order) (item ∷ items) s).1
      go (err x, s') e c' rest = ground arith
      go (ok h, s') e c' rest =
          tail h s' e (for_each (reserve_item o t order) items s') refl (rest s' c')

  pub serve-IsSound :
      (r : Request) (s : State o) → IsAdmitted r → IsSound o s → IsSound o (serve r s)
  unfolding serve reserve_items_for_order
  serve-IsSound (Request.get v) s a c = get_inventory-IsSound o v s c
  serve-IsSound (Request.add v q reference) s a c = add_stock-IsSound o v s q reference c
  serve-IsSound (Request.remove v q reference) s a c = remove_stock-IsSound o v s q reference c
  serve-IsSound (Request.adjust v x) s a c = adjust_stock-IsSound o v s x c
  serve-IsSound (Request.reserve now v q order minutes) s a c =
      reserve_stock-IsSound o now v q order minutes s c a
  serve-IsSound (Request.confirm now id order) s a c =
      confirm_reservation-IsSound o now id order s c
  serve-IsSound (Request.release id) s a c = release_reservation-IsSound o id s c
  serve-IsSound (Request.expire now) s a c =
      let (s', e, after, _) = expire_stale_reservations_lem o now s c in rw (e, serve) after.sound
  serve-IsSound (Request.reserve_order t order items) s a c =
      in_transaction-IsSound o (reserve_items_for_order o t order items) s c
        (reserve_items-IsSound t order items s c a)
  serve-IsSound (Request.release_order order) s a c =
      let (s', e, after, _) = release_order_reservations_lem o order s c in
      in_transaction-IsSound o (release_order_reservations o order) s c (rw e after.sound)
  serve-IsSound (Request.commit_order order) s a c =
      let (s', e, after, _) = commit_order_reservations_lem o order s c in
      in_transaction-IsSound o (commit_order_reservations o order) s c (rw e after.sound)

  -- From a sound state, every sequence of admitted requests, of which any may throw, ends in a sound
  -- state: for every variant the reserved count is the number of units that active reservations
  -- hold, and the available count is not negative.
  pub serve_all-IsSound :
      (rs : List Request) (s : State o)
      → All IsAdmitted rs
      → IsSound o s
      → IsSound o (serve_all rs s)
  unfolding serve_all
  serve_all-IsSound [] s admitted c = c
  serve_all-IsSound (r ∷ rs) s (a, as') c =
      serve_all-IsSound rs (serve r s) as' (serve-IsSound r s a c)
