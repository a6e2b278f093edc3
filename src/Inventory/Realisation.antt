-- ===== src/Inventory/Realisation.antt =====
-- Each request on stock and reservations is, for each variant, a run of the acts it allows.
use meeo_server.Base.{ℕ, ◌<◌, ◌≡◌, refl, inl, inr, List, [], ◌∷◌, arith, All}
use meeo_server.Base.Result.{Result, ok, err, for_each}
use meeo_server.Orm.{Orm}
use meeo_server.Store.{State, Error}
use meeo_server.Inventory.Holds.{Hold, give_back, commit}
use meeo_server.Inventory.OrderHolds.{
  Requirement, reserve_item, reserve_items_for_order, release_order_reservations,
  commit_order_reservations,
}
use meeo_server.Inventory.Balance.{IsSound}
use meeo_server.Inventory.OrderStock.{release_order_reservations_lem, commit_order_reservations_lem}
use meeo_server.Inventory.Expiry.{expire_stale_reservations_lem}
use meeo_server.Inventory.Requests.{
  Request, IsAdmitted, serve, serve_all, serve-IsSound, reserve_item-IsSound,
}
use meeo_server.Inventory.Pool.{Kind, Run}
use meeo_server.Inventory.Chains.{Allows, Lists, Chain}
use meeo_server.Inventory.Refinement.{
  pool_at, pool_at-row, Follows, Follows-refl, Follows-trans, in_transaction-Follows,
}
use meeo_server.Inventory.LevelRuns.{
  add_stock-Follows, remove_stock-Follows, adjust_stock-Follows, get_inventory-Follows,
}
use meeo_server.Inventory.Simulation.{Swept-Follows, reserve_item-Follows}
use meeo_server.Inventory.ReservationRuns.{
  give_back-IsAct, commit-IsAct, reserve_stock-Follows, release_reservation-Follows,
  confirm_reservation-Follows,
}

module _ (o : Orm) where
  reserve_items-Follows :
      (allowed : ℕ → Kind → Type 0) (t order : ℕ) (items : List Requirement) (s : State o)
      → ((v n : ℕ) → Lists v n items → allowed v (Kind.held n))
      → IsSound o s
      → All (λ item. 0 < item.quantity) items
      → Follows o allowed s (for_each (reserve_item o t order) items s).1
  unfolding for_each
  reserve_items-Follows allowed t order [] s permit c positive = Follows-refl o allowed s
  reserve_items-Follows allowed t order (item ∷ items) s permit c (p, ps) =
      go (reserve_item o t order item s) refl (reserve_item-IsSound o t order item s c p)
        (reserve_item-Follows o allowed t order item s c
          (permit item.variant item.quantity (inl (refl, refl))))
        (λ s' c'.
          reserve_items-Follows allowed t order items s' (λ v n l. permit v n (inr l)) c' ps)
    where
      tail :
          (h : Hold) (s' : State o)
          → reserve_item o t order item s ≡ (ok h, s')
          → (r : Result Error (List Hold) × State o)
          → for_each (reserve_item o t order) items s' ≡ r
          → Follows o allowed s s'
          → Follows o allowed s' r.1
          → Follows o allowed s (for_each (reserve_item o t order) (item ∷ items) s).1
      tail h s' e (err x, s2) e2 f g = ground (arith, Follows-trans o allowed s s' s2 f g)
      tail h s' e (ok hs, s2) e2 f g = ground (arith, Follows-trans o allowed s s' s2 f g)

      go :
          (r : Result Error Hold × State o)
          → reserve_item o t order item s ≡ r
          → IsSound o r.1
          → Follows o allowed s r.1
          → ((s' : State o)
              → IsSound o s'
              → Follows o allowed s' (for_each (reserve_item o t order) items s').1)
          → Follows o allowed s (for_each (reserve_item o t order) (item ∷ items) s).1
      go (err x, s') e c' f rest = ground arith
      go (ok h, s') e c' f rest =
          tail h s' e (for_each (reserve_item o t order) items s') refl f (rest s' c')

  serve-Follows :
      (r : Request) (s : State o)
      → IsAdmitted r
      → IsSound o s
      → Follows o (Allows r) s (serve o r s)
  unfolding serve reserve_items_for_order
  serve-Follows (Request.get v) s a c =
      get_inventory-Follows o (Allows (Request.get v)) v s (refl, refl)
  serve-Follows (Request.add v q reference) s a c =
      add_stock-Follows o (Allows (Request.add v q reference)) v q reference s c (refl, refl)
        (refl, refl)
  serve-Follows (Request.remove v q reference) s a c =
      remove_stock-Follows o (Allows (Request.remove v q reference)) v q reference s c (refl, refl)
  serve-Follows (Request.adjust v x) s a c =
      adjust_stock-Follows o (Allows (Request.adjust v x)) v x s (λ _. refl)
  serve-Follows (Request.reserve now v q order minutes) s a c =
      reserve_stock-Follows o now v q order minutes s c
  serve-Follows (Request.confirm now id order) s a c =
      confirm_reservation-Follows o now id order s c
  serve-Follows (Request.release id) s a c = release_reservation-Follows o id s c
  serve-Follows (Request.expire now) s a c =
      let (s', e, after, _) = expire_stale_reservations_lem o now s c in
      rw (e, serve)
        (Swept-Follows o (Allows (Request.expire now)) give_back Kind.freed _ _ s s' give_back-IsAct
          (λ _ _. tt) c after)
  serve-Follows (Request.reserve_order t order items) s a c =
      in_transaction-Follows o (Allows (Request.reserve_order t order items))
        (reserve_items_for_order o t order items) s
        (reserve_items-Follows (Allows (Request.reserve_order t order items)) t order items s
          (λ v n l. l) c a)
  serve-Follows (Request.release_order order) s a c =
      let (s', e, after, _) = release_order_reservations_lem o order s c in
      in_transaction-Follows o (Allows (Request.release_order order))
        (release_order_reservations o order) s
        (rw e (
          Swept-Follows o (Allows (Request.release_order order)) give_back Kind.freed _ _ s s'
            give_back-IsAct (λ _ _. tt) c after))
  serve-Follows (Request.commit_order order) s a c =
      let (s', e, after, _) = commit_order_reservations_lem o order s c in
      in_transaction-Follows o (Allows (Request.commit_order order))
        (commit_order_reservations o order) s
        (rw e (
          Swept-Follows o (Allows (Request.commit_order order)) commit Kind.sold _ _ s s'
            commit-IsAct (λ _ _. tt) c after))

  -- One request, from a sound state.
  serve-Run :
      (r : Request) (s : State o)
      → IsAdmitted r
      → IsSound o s
      → (v : ℕ) → Run (Allows r v) (pool_at o v s) (pool_at o v (serve o r s))
  unfolding Follows
  serve-Run r s a c v =
      rw (pool_at-row o v s c, pool_at-row o v (serve o r s) (serve-IsSound o r s a c))
        (serve-Follows r s a c v)

  -- From a sound state, a sequence of admitted requests, of which any may throw, is for each variant
  -- a chain of runs of acts on its pool (its available units are free, and the units of its active
  -- reservations are held), one run for each request, of acts of the kinds the request allows
  -- for that variant: reading may establish an empty pool, adding establishes or restocks it
  -- with the quantity added, removing writes that quantity off, adjusting counts the free units
  -- anew, reserving holds the quantities asked for, confirming and committing an order sell held
  -- units, and releasing, expiring and releasing an order free held units. Each act moves as
  -- many units as it is labelled with, and none that are not there.
  pub serve_all-Chain :
      (rs : List Request) (s : State o)
      → All IsAdmitted rs
      → IsSound o s
      → (v : ℕ) → Chain v rs (pool_at o v s) (pool_at o v (serve_all o rs s))
  unfolding serve_all
  serve_all-Chain [] s admitted c v = Chain.done
  serve_all-Chain (r ∷ rs) s (a, as') c v =
      Chain.next (serve-Run r s a c v)
        (serve_all-Chain rs (serve o r s) as' (serve-IsSound o r s a c) v)
