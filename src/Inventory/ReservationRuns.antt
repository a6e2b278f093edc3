-- ===== src/Inventory/ReservationRuns.antt =====
-- `reservation.service.ts`: each operation on a reservation is, for each variant, a run of the acts
-- it allows.
use meeo_server.Base.{ℕ, ◌+◌, ◌*◌, refl, inl, inr, Option, arith, Option-cases, Bool-cases, ltb}
use meeo_server.Base.Int.{pos, ltb_ℤ}
use meeo_server.Orm.{Orm}
use meeo_server.Store.{
  Inventory, Reservation, ReservationStatus, is_active, LedgerKind, Reference, State,
}
use meeo_server.Inventory.Holds.{give_back, commit, mark}
use meeo_server.Inventory.Reservations.{
  or_else, order_reference, reserve_body, reserve_stock, confirm_body, confirm_reservation,
  release_body, release_reservation,
}
use meeo_server.Inventory.Balance.{IsSound}
use meeo_server.Inventory.Closing.{give_back-IsClosing, commit-IsClosing, open_hold-eq}
use meeo_server.Inventory.Branches.{
  release_missing, release_inactive, release_active, confirm_missing, confirm_inactive,
  confirm_timely, reserve_missing, reserve_short, reserve_covered,
}
use meeo_server.Inventory.Expiry.{confirm_reservation_expired}
use meeo_server.Inventory.Requests.{Request}
use meeo_server.Inventory.Pool.{Kind}
use meeo_server.Inventory.Chains.{Allows}
use meeo_server.Inventory.Refinement.{
  give_back-Act, commit-Act, Follows, Follows-refl, in_transaction-Follows,
}
use meeo_server.Inventory.Simulation.{IsAct, opened-Follows, close-Follows}

pub give_back-IsAct : IsAct give_back Kind.freed
give_back-IsAct q i a b c = give_back-Act q i a b c

pub commit-IsAct : IsAct commit Kind.sold
commit-IsAct q i a b c = commit-Act q i b c

module _ (o : Orm) where
  pub reserve_stock-Follows :
      (now v q : ℕ) (order : Option ℕ) (minutes : ℕ) (s : State o)
      → IsSound o s
      → Follows o
          (Allows (Request.reserve now v q order minutes))
          s
          (reserve_stock o now v q order minutes s).1
  unfolding reserve_stock
  reserve_stock-Follows now v q order minutes s c =
      in_transaction-Follows o (Allows (Request.reserve now v q order minutes))
        (reserve_body o now v q order minutes) s
        (elim (Option-cases (o.find Inventory v s.inventory)) [
          | inl e ↦
              rw (reserve_missing o now v q order minutes s e)
                (Follows-refl o (Allows (Request.reserve now v q order minutes)) s)
          | inr (i, e) ↦ elim (Bool-cases (ltb_ℤ i.available (pos q))) [
            | inl short ↦
                rw (reserve_short o now v q order minutes s i e short)
                  (Follows-refl o (Allows (Request.reserve now v q order minutes)) s)
            | inr enough ↦
                rw
                  (
                    reserve_covered o now v q order minutes s i e enough,
                    open_hold-eq o v q order (now + minutes * 60_000) Reference.reservation i s e,
                  )
                  (opened-Follows o (Allows (Request.reserve now v q order minutes)) v q order
                    (now + minutes * 60_000) Reference.reservation i s c e (ground arith)
                    (refl, refl))
          ]
        ])

  pub release_reservation-Follows :
      (id : ℕ) (s : State o)
      → IsSound o s
      → Follows o (Allows (Request.release id)) s (release_reservation o id s).1
  unfolding release_reservation
  release_reservation-Follows id s c =
      in_transaction-Follows o (Allows (Request.release id)) (release_body o id) s
        (elim (Option-cases (o.find Reservation id s.reservations)) [
          | inl e ↦ rw (release_missing o id s e) (Follows-refl o (Allows (Request.release id)) s)
          | inr (r, e) ↦ elim (Bool-cases (is_active r.status)) [
            | inl a ↦ rw (release_active o id s r e a) (
                close-Follows o (Allows (Request.release id)) give_back Kind.freed
                  (mark ReservationStatus.released) LedgerKind.order_cancelled
                  (Reference.reservation id) id r s c e a give_back-IsClosing
                  (record { ended = refl; units = refl }) give_back-IsAct (λ _ _. tt))
            | inr a ↦
                rw (release_inactive o id s r e a) (Follows-refl o (Allows (Request.release id)) s)
          ]
        ])

  by_body :
      (now id : ℕ) (order : Option ℕ) (s : State o)
      → Follows o (Allows (Request.confirm now id order)) s (confirm_body o now id order s).1
      → Follows o (Allows (Request.confirm now id order)) s (confirm_reservation o now id order s).1
  unfolding confirm_reservation
  by_body now id order s =
      in_transaction-Follows o (Allows (Request.confirm now id order)) (confirm_body o now id order)
        s

  pub confirm_reservation-Follows :
      (now id : ℕ) (order : Option ℕ) (s : State o)
      → IsSound o s
      → Follows o (Allows (Request.confirm now id order)) s (confirm_reservation o now id order s).1
  confirm_reservation-Follows now id order s c =
      elim (Option-cases (o.find Reservation id s.reservations)) [
        | inl e ↦ by_body now id order s (
            rw (confirm_missing o id s now order e)
              (Follows-refl o (Allows (Request.confirm now id order)) s))
        | inr (r, e) ↦ elim (Bool-cases (is_active r.status)) [
          | inr a ↦ by_body now id order s (
              rw (confirm_inactive o id s now order r e a)
                (Follows-refl o (Allows (Request.confirm now id order)) s))
          | inl a ↦ elim (Bool-cases (ltb r.expires_at now)) [
            | inl t ↦
                rw (confirm_reservation_expired o now s id order r c e a t)
                  (Follows-refl o (Allows (Request.confirm now id order)) s)
            | inr t ↦ by_body now id order s (
                rw (confirm_timely o id s now order r e a t) (
                  close-Follows o (Allows (Request.confirm now id order)) commit Kind.sold
                    (λ x. record x {
                      status = ReservationStatus.confirmed;
                      order = or_else order r.order;
                    })
                    LedgerKind.order_confirmed (order_reference (or_else order r.order) id) id r s c
                    e a commit-IsClosing (record { ended = refl; units = refl }) commit-IsAct
                    (λ _ _. tt)))
          ]
        ]
      ]
