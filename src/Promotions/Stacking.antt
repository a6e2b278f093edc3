-- ===== src/Promotions/Stacking.antt =====
-- Which promotions an evaluation applies, and in which order (`promotionEngine.service.ts` of
-- `src/modules/promotions/services`).
use meeo_server.Base.{
  ℕ, ◌≤◌, ◌≡◌, refl, inl, inr, Bool, true, false, ◌||◌, List, [], ◌∷◌, ◌++◌, arith, if◌then◌else◌,
  leb, length, All, Bool-cases, subst, sym,
}
use meeo_server.Promotions.Rules.{is_exclusive, Promotion, Item, Cart, Eligibility}
use meeo_server.Promotions.Eligibility.{check_eligibility, number_or}
use meeo_server.Promotions.Loop.{calculation_of, next_of, is_skipped, apply_all-induct}
use meeo_server.Promotions.Engine.{
  Candidate, Applied, filter_candidates, insert_candidate, by_priority, Progress, no_progress,
  is_none_applied, apply_all, evaluate,
}

abbrev pub has_exclusive : List Applied → Bool
has_exclusive [] = false
has_exclusive (a ∷ l) = is_exclusive a.promotion.stacking_rule || has_exclusive l

-- Every promotion but the last is stackable.
abbrev pub IsStackable : List Applied → Type 0
IsStackable [] = Unit
IsStackable (a ∷ []) = Unit
IsStackable (a ∷ b ∷ l) = (a.promotion.is_stackable ≡ true) × IsStackable (b ∷ l)

-- No promotion comes after one of less priority.
abbrev pub IsDescending : List Applied → Type 0
IsDescending [] = Unit
IsDescending (a ∷ l) = All (λ b. b.promotion.priority ≤ a.promotion.priority) l × IsDescending l

abbrev pub IsEligible : Cart → ℕ → Promotion → Type 0
IsEligible cart now p =
    (matched : List Item) × (subtotal : ℕ) × (check_eligibility p cart now
      ≡ Eligibility.eligible matched subtotal)

pub record IsFair (cart : Cart) (now : ℕ) (l : List Applied) : Type 0 where
  pub alone : has_exclusive l ≡ true → length l ≡ 1
  pub stackable : IsStackable l
  pub descending : IsDescending l
  pub eligible : All (λ a. IsEligible cart now a.promotion) l

module _ (x : Applied) where
  has_exclusive-append :
      (l : List Applied)
      → has_exclusive (l ++ (x ∷ [])) ≡ (has_exclusive l || is_exclusive x.promotion.stacking_rule)
  has_exclusive-append [] = ground arith
  has_exclusive-append (a ∷ l) = ground (arith, has_exclusive-append l)

  All-append : (P : Applied → Type 0) (l : List Applied) → All P l → P x → All P (l ++ (x ∷ []))
  All-append P [] h p = (p, tt)
  All-append P (a ∷ l) (h, hs) p = (h, All-append P l hs p)

  IsStackable-append :
      (l : List Applied)
      → All (λ a. a.promotion.is_stackable ≡ true) l
      → IsStackable (l ++ (x ∷ []))
  IsStackable-append [] h = tt
  IsStackable-append (a ∷ []) (h, hs) = (h, tt)
  IsStackable-append (a ∷ b ∷ l) (h, hs) = (h, IsStackable-append (b ∷ l) hs)

  IsDescending-append :
      (l : List Applied)
      → IsDescending l
      → All (λ a. x.promotion.priority ≤ a.promotion.priority) l
      → IsDescending (l ++ (x ∷ []))
  IsDescending-append [] d h = (tt, tt)
  IsDescending-append (a ∷ l) (d, ds) (h, hs) = (
    All-append (λ b. b.promotion.priority ≤ a.promotion.priority) l d h,
    IsDescending-append l ds hs,
  )

single : (x : Applied) (l : List Applied) → is_none_applied l ≡ true → length (l ++ (x ∷ [])) ≡ 1
single x [] h = refl
single x (a ∷ l) h = cc

IsStackable-All : (l : List Applied) → All (λ a. a.promotion.is_stackable ≡ true) l → IsStackable l
IsStackable-All [] h = tt
IsStackable-All (a ∷ []) h = tt
IsStackable-All (a ∷ b ∷ l) (h, hs) = (h, IsStackable-All (b ∷ l) hs)

module _ (cart : Cart) (now : ℕ) where
  -- The candidates are eligible, and sorted.
  abbrev Ranked : List Candidate → Type 0
  Ranked [] = Unit
  Ranked (c ∷ l) =
      IsEligible cart now c.promotion
      × All (λ d. d.promotion.priority ≤ c.promotion.priority) l
      × Ranked l

  abbrev Sound : List Candidate → Type 0
  Sound l = All (λ c. IsEligible cart now c.promotion) l

  insert-below :
      (n : ℕ) (c : Candidate) (l : List Candidate)
      → c.promotion.priority ≤ n
      → All (λ d. d.promotion.priority ≤ n) l
      → All (λ d. d.promotion.priority ≤ n) (insert_candidate c l)
  unfolding insert_candidate
  insert-below n c [] h hs = (h, tt)
  insert-below n c (d ∷ l) h (k, ks) = ground (arith, insert-below n c l h ks)

  weaken :
      (m n : ℕ) (l : List Candidate)
      → m ≤ n
      → All (λ d. d.promotion.priority ≤ m) l
      → All (λ d. d.promotion.priority ≤ n) l
  weaken m n [] h hs = tt
  weaken m n (d ∷ l) h (k, ks) = (omega arith, weaken m n l h ks)

  insert-Ranked :
      (c : Candidate) (l : List Candidate)
      → IsEligible cart now c.promotion
      → Ranked l
      → Ranked (insert_candidate c l)
  unfolding insert_candidate
  insert-Ranked c [] e r = (e, tt, tt)
  insert-Ranked c (d ∷ l) e (f, below, r) =
      elim (Bool-cases (leb d.promotion.priority c.promotion.priority)) [
        | inl first ↦
            let le : d.promotion.priority ≤ c.promotion.priority = ground arith in
            rw (insert_candidate, first)
              (e, (le, weaken d.promotion.priority c.promotion.priority l le below), (f, below, r))
        | inr later ↦
            rw (insert_candidate, later)
              (f, insert-below d.promotion.priority c l (ground arith) below, insert-Ranked c l e r)
      ]

  by_priority-Ranked : (l : List Candidate) → Sound l → Ranked (by_priority l)
  unfolding by_priority
  by_priority-Ranked [] h = tt
  by_priority-Ranked (c ∷ l) (h, hs) = insert-Ranked c (by_priority l) h (by_priority-Ranked l hs)

  filter-Sound : (ps : List Promotion) → Sound (filter_candidates cart now ps).0
  unfolding filter_candidates
  filter-Sound [] = tt
  filter-Sound (p ∷ ps) = go (check_eligibility p cart now) refl (filter-Sound ps)
    where
      go :
          (x : Eligibility)
          → check_eligibility p cart now ≡ x
          → Sound (filter_candidates cart now ps).0
          → Sound (filter_candidates cart now (p ∷ ps)).0
      go (Eligibility.eligible matched subtotal) e h =
          let c : Candidate = record { promotion = p; matched = matched; subtotal = subtotal } in
          let eq : (filter_candidates cart now (p ∷ ps)).0 ≡ c ∷ (filter_candidates cart now ps).0 =
            ground arith in
          subst Sound (sym eq) ((matched, subtotal, e), h)
      go (Eligibility.ineligible reason) e h =
          let eq : (filter_candidates cart now (p ∷ ps)).0 ≡ (filter_candidates cart now ps).0 =
            ground arith in
          subst Sound (sym eq) h

  -- The candidates to come have no more priority than any promotion applied.
  abbrev Above : List Candidate → List Applied → Type 0
  Above l applied = All (λ a. All (λ c. c.promotion.priority ≤ a.promotion.priority) l) applied

  above-head :
      (c : Candidate) (l : List Candidate) (applied : List Applied)
      → Above (c ∷ l) applied
      → All (λ a. c.promotion.priority ≤ a.promotion.priority) applied
  above-head c l [] h = tt
  above-head c l (a ∷ r) (h, hs) = (h.0, above-head c l r hs)

  above-tail :
      (c : Candidate) (l : List Candidate) (applied : List Applied)
      → Above (c ∷ l) applied
      → Above l applied
  above-tail c l [] h = tt
  above-tail c l (a ∷ r) (h, hs) = (h.1, above-tail c l r hs)

  -- What holds before each round.
  record Open (l : List Candidate) (g : Progress) : Type 0 where
    flag : g.exclusive_applied ≡ has_exclusive g.applied
    alone : has_exclusive g.applied ≡ true → length g.applied ≡ 1
    stackable : All (λ a. a.promotion.is_stackable ≡ true) g.applied
    descending : IsDescending g.applied
    eligible : All (λ a. IsEligible cart now a.promotion) g.applied
    ranked : Ranked l
    above : Above l g.applied

  module _ (original fee : ℕ) where
    applied_of : Candidate → Progress → Applied
    applied_of c g = record {
      promotion = c.promotion;
      discount = (calculation_of original fee c g).discount;
      free_shipping = (calculation_of original fee c g).free_shipping;
      free_shipping_discount = if (calculation_of original fee c g).free_shipping then fee else 0;
      matched_count = length c.matched;
    }

    module _ (c : Candidate) (l : List Candidate) (g : Progress) (h : Open (c ∷ l) g)
        (free : g.exclusive_applied ≡ false) (taken : is_skipped original fee c g ≡ false) where
      next_alone :
          has_exclusive (next_of original fee c g).applied ≡ true
          → length (next_of original fee c g).applied ≡ 1
      unfolding applied_of
      next_alone e =
          single (applied_of c g) g.applied
            (ground (arith, h.flag, has_exclusive-append (applied_of c g) g.applied))

      next-IsFair : IsFair cart now (next_of original fee c g).applied
      unfolding applied_of
      next-IsFair = record {
        alone = next_alone;
        stackable = IsStackable-append (applied_of c g) g.applied h.stackable;
        descending =
            IsDescending-append (applied_of c g) g.applied h.descending
              (above-head c l g.applied h.above);
        eligible =
            All-append (applied_of c g) (λ a. IsEligible cart now a.promotion) g.applied h.eligible
              h.ranked.0;
      }

      next-Open : c.promotion.is_stackable ≡ true → Open l (next_of original fee c g)
      unfolding applied_of
      next-Open more = record {
        flag = ground (arith, h.flag, has_exclusive-append (applied_of c g) g.applied);
        alone = next_alone;
        stackable =
            All-append (applied_of c g) (λ a. a.promotion.is_stackable ≡ true) g.applied h.stackable
              more;
        descending = next-IsFair.descending;
        eligible = next-IsFair.eligible;
        ranked = h.ranked.2;
        above =
            All-append (applied_of c g)
              (λ a. All (λ d. d.promotion.priority ≤ a.promotion.priority) l) g.applied
              (above-tail c l g.applied h.above) h.ranked.1;
      }

    Open-IsFair : (l : List Candidate) (g : Progress) → Open l g → IsFair cart now g.applied
    Open-IsFair l g h = record {
      alone = h.alone;
      stackable = IsStackable-All g.applied h.stackable;
      descending = h.descending;
      eligible = h.eligible;
    }

    apply_all-IsFair :
        (l : List Candidate)
        → Ranked l
        → IsFair cart now (apply_all original fee l no_progress).applied
    apply_all-IsFair l r =
        apply_all-induct original fee {P = Open} {Q = λ g. IsFair cart now g.applied}
          (record {
            at_end = λ l g h. Open-IsFair l g h;
            skip = λ c l g h. record {
              flag = h.flag;
              alone = h.alone;
              stackable = h.stackable;
              descending = h.descending;
              eligible = h.eligible;
              ranked = h.ranked.2;
              above = above-tail c l g.applied h.above;
            };
            apply = λ c l g h free taken more. next-Open c l g h free taken more;
            last = λ c l g h free taken _. next-IsFair c l g h free taken;
          })
          l no_progress
          (record {
            flag = refl;
            alone = λ e. cc;
            stackable = tt;
            descending = tt;
            eligible = tt;
            ranked = r;
            above = tt;
          })

-- Every promotion that an evaluation applies is eligible; none comes after one of less priority; an
-- exclusive one is applied alone; and one that is not stackable is the last.
pub evaluate-IsFair :
    (promotions : List Promotion) (cart : Cart) (now : ℕ)
    → IsFair cart now (evaluate promotions cart now).applied
unfolding evaluate
evaluate-IsFair promotions cart now =
    apply_all-IsFair cart now cart.subtotal (number_or cart.shipping_fee 0)
      (by_priority (filter_candidates cart now promotions).0)
      (by_priority-Ranked cart now (filter_candidates cart now promotions).0
        (filter-Sound cart now promotions))
