-- ===== src/Promotions/Loop.antt =====
-- The loop of `evaluate` over the candidates (`promotionEngine.service.ts` of
-- `src/modules/promotions/services`): a rule of induction for it.
use meeo_server.Base.{
  ℕ, ◌-◌, ◌≡◌, inl, inr, Bool, true, false, not, ◌&&◌, ◌||◌, List, [], ◌∷◌, arith, ◌==◌, sym, subst,
  Bool-cases,
}
use meeo_server.Promotions.Rules.{is_exclusive}
use meeo_server.Promotions.Engine.{
  Calculation, calculate_discount, Candidate, Progress, is_none_applied, with_applied, apply_all,
}

module _ (original fee : ℕ) where
  abbrev pub calculation_of : Candidate → Progress → Calculation
  calculation_of c g = calculate_discount c.promotion c.matched c.subtotal (original - g.running)

  -- What the loop has gathered when it has applied a candidate.
  abbrev pub next_of : Candidate → Progress → Progress
  next_of c g = with_applied fee c (calculation_of c g) g

  -- An exclusive promotion after another one, or a calculation without effect.
  abbrev pub is_skipped : Candidate → Progress → Bool
  is_skipped c g =
      (is_exclusive c.promotion.stacking_rule && not (is_none_applied g.applied))
      || (((calculation_of c g).discount == 0) && not (calculation_of c g).free_shipping)

  module _ (c : Candidate) (l : List Candidate) (g : Progress) where
    loop-stop : g.exclusive_applied ≡ true → apply_all original fee (c ∷ l) g ≡ g
    unfolding apply_all
    loop-stop e = ground arith

    module _ (free : g.exclusive_applied ≡ false) where
      loop-skip :
          is_skipped c g ≡ true → apply_all original fee (c ∷ l) g ≡ apply_all original fee l g
      unfolding apply_all
      loop-skip e = ground arith

      loop-apply :
          is_skipped c g ≡ false
          → c.promotion.is_stackable ≡ true
          → apply_all original fee (c ∷ l) g ≡ apply_all original fee l (next_of c g)
      unfolding apply_all
      loop-apply e a = ground arith

      loop-last :
          is_skipped c g ≡ false
          → c.promotion.is_stackable ≡ false
          → apply_all original fee (c ∷ l) g ≡ next_of c g
      unfolding apply_all
      loop-last e a = ground arith

  -- `P` holds before each round, and `Q` when the loop is over.
  pub record IsInvariant (P : List Candidate → Progress → Type 0) (Q : Progress → Type 0)
      : Type 0 where
    pub at_end : (l : List Candidate) (g : Progress) → P l g → Q g
    pub skip : (c : Candidate) (l : List Candidate) (g : Progress) → P (c ∷ l) g → P l g
    pub apply :
        (c : Candidate) (l : List Candidate) (g : Progress)
        → P (c ∷ l) g
        → g.exclusive_applied ≡ false
        → is_skipped c g ≡ false
        → c.promotion.is_stackable ≡ true
        → P l (next_of c g)
    pub last :
        (c : Candidate) (l : List Candidate) (g : Progress)
        → P (c ∷ l) g
        → g.exclusive_applied ≡ false
        → is_skipped c g ≡ false
        → c.promotion.is_stackable ≡ false
        → Q (next_of c g)

  module _ {P : List Candidate → Progress → Type 0} {Q : Progress → Type 0}
      (rule : IsInvariant P Q) where
    pub apply_all-induct :
        (l : List Candidate) (g : Progress) → P l g → Q (apply_all original fee l g)
    unfolding apply_all
    apply_all-induct [] g h = rule.at_end [] g h
    apply_all-induct (c ∷ l) g h = elim (Bool-cases g.exclusive_applied) [
      | inl e ↦ subst Q (sym (loop-stop c l g e)) (rule.at_end (c ∷ l) g h)
      | inr e ↦ elim (Bool-cases (is_skipped c g)) [
        | inl skipped ↦
            subst Q (sym (loop-skip c l g e skipped)) (apply_all-induct l g (rule.skip c l g h))
        | inr taken ↦ elim (Bool-cases c.promotion.is_stackable) [
          | inl more ↦
              subst Q (sym (loop-apply c l g e taken more))
                (apply_all-induct l (next_of c g) (rule.apply c l g h e taken more))
          | inr no_more ↦
              subst Q (sym (loop-last c l g e taken no_more)) (rule.last c l g h e taken no_more)
        ]
      ]
    ]
