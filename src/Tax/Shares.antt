-- ===== src/Tax/Shares.antt =====
-- `allocateDiscounts` (`src/modules/tax/services/gstEngine.service.ts`): the shares of an order's
-- discount.
use meeo_server.Base.{
  ℕ, ◌≡◌, refl, sym, ◌∙◌, ap, inl, inr, true, false, ◌||◌, List, [], ◌∷◌, arith, ◌==◌, ==_iff,
  ==_refl, ltb, if◌then◌else◌, min, contains, Bool-cases,
}
use meeo_server.Base.Int.{ℤ, pos, pos_part, neg_part, ◌+ℤ◌, ◌-ℤ◌, int_laws}
use meeo_server.Tax.Gst.{
  GstItem, gross_of, gross_subtotal_of, set_entry, entry_or_zero, set_zeros, share_of, set_shares,
  allocated_sum, largest_of, reconcile, allocate_discounts,
}

abbrev pub sum_of {ℓ} : {A : Type ℓ} → (A → ℤ) → List A → ℤ
sum_of f [] = pos 0
sum_of f (x ∷ l) = f x +ℤ sum_of f l

abbrev pub ids_of : List GstItem → List ℕ
ids_of [] = []
ids_of (i ∷ l) = i.id ∷ ids_of l

-- No two items share an identifier.
abbrev pub IsApart : List GstItem → Type 0
IsApart [] = Unit
IsApart (i ∷ l) = (contains i.id (ids_of l) ≡ false) × IsApart l

-- What the items are given of a map.
abbrev pub given_of : List (ℕ × ℤ) → List GstItem → ℤ
given_of m l = sum_of (λ (i : GstItem). entry_or_zero i.id m) l

entry_set :
    (j k : ℕ) (v : ℤ) (m : List (ℕ × ℤ))
    → entry_or_zero j (set_entry k v m) ≡ (if k == j then v else entry_or_zero j m)
entry_set j k v [] = ground arith
entry_set j k v ((i, x) ∷ m) = ground (arith, entry_set j k v m)

entry_set_shares :
    (j capped gross : ℕ) (l : List GstItem) (m : List (ℕ × ℤ))
    → contains j (ids_of l) ≡ false
    → entry_or_zero j (set_shares capped gross l m) ≡ entry_or_zero j m
unfolding set_shares
entry_set_shares j capped gross [] m e = refl
entry_set_shares j capped gross (i ∷ l) m e =
    let m' = set_entry i.id (pos (share_of capped gross i)) m in
    ground (
      arith,
      entry_set_shares j capped gross l m',
      entry_set j i.id (pos (share_of capped gross i)) m,
    )

given_shares :
    (capped gross : ℕ) (l : List GstItem) (m : List (ℕ × ℤ))
    → IsApart l
    → given_of (set_shares capped gross l m) l ≡ pos (allocated_sum capped gross l)
unfolding set_shares
given_shares capped gross [] m a = refl
given_shares capped gross (i ∷ l) m (new, a) =
    let share = share_of capped gross i in
    let m' = set_entry i.id (pos share) m in
    let first : entry_or_zero i.id (set_shares capped gross l m') ≡ pos share =
      entry_set_shares i.id capped gross l m' new
      ∙ ground (arith, entry_set i.id i.id (pos share) m, ==_refl i.id) in
    rw (first, given_shares capped gross l m' a) (omega int_laws)

entry_set_zeros :
    (j : ℕ) (l : List GstItem) (m : List (ℕ × ℤ))
    → entry_or_zero j m ≡ pos 0
    → entry_or_zero j (set_zeros l m) ≡ pos 0
unfolding set_zeros
entry_set_zeros j [] m e = e
entry_set_zeros j (i ∷ l) m e =
    entry_set_zeros j l (set_entry i.id (pos 0) m) (ground (arith, entry_set j i.id (pos 0) m))

given_zeros :
    (m : List (ℕ × ℤ)) (l : List GstItem)
    → ((j : ℕ) → entry_or_zero j m ≡ pos 0)
    → given_of m l ≡ pos 0
given_zeros m [] zeros = refl
given_zeros m (i ∷ l) zeros =
    let first = zeros i.id in rw (first, given_zeros m l zeros) (omega int_laws)

shift : (a b c d e : ℤ) → b +ℤ c ≡ d +ℤ e → a +ℤ b +ℤ c ≡ a +ℤ d +ℤ e
shift a b c d e h = omega (int_laws, ap pos_part h, ap neg_part h)

cancel : (a b : ℤ) (p q : ℕ) → a +ℤ b ≡ pos q +ℤ (b +ℤ (pos p -ℤ pos q)) → a ≡ pos p
cancel a b p q h = omega (int_laws, ap pos_part h, ap neg_part h)

module _ (k : ℕ) (v : ℤ) (m : List (ℕ × ℤ)) where
  given_set_other :
      (l : List GstItem)
      → contains k (ids_of l) ≡ false
      → given_of (set_entry k v m) l ≡ given_of m l
  given_set_other [] e = refl
  given_set_other (i ∷ l) e =
      let first : entry_or_zero i.id (set_entry k v m) ≡ entry_or_zero i.id m =
        ground (arith, entry_set i.id k v m, ==_iff i.id k, ==_iff k i.id) in
      rw (first, given_set_other l (ground arith)) refl

  -- Of the items, one has the key, and is given what is set.
  given_set :
      (l : List GstItem)
      → IsApart l
      → contains k (ids_of l) ≡ true
      → given_of (set_entry k v m) l +ℤ entry_or_zero k m ≡ given_of m l +ℤ v
  given_set [] a e = cc
  given_set (i ∷ l) (new, a) e = elim (Bool-cases (i.id == k)) [
    | inl same ↦
        let at : i.id ≡ k = (==_iff i.id k).0 same in
        let first : entry_or_zero i.id (set_entry k v m) ≡ v =
          ground (arith, entry_set i.id k v m, ==_iff k i.id) in
        let before : entry_or_zero i.id m ≡ entry_or_zero k m = ap (λ j. entry_or_zero j m) at in
        let rest = given_set_other l (ground arith) in rw (first, before, rest) (omega int_laws)
    | inr other ↦
        let first : entry_or_zero i.id (set_entry k v m) ≡ entry_or_zero i.id m =
          ground (arith, entry_set i.id k v m, ==_iff k i.id, ==_iff i.id k) in
        rw first (
          shift (entry_or_zero i.id m) (given_of (set_entry k v m) l) (entry_or_zero k m)
            (given_of m l) v (given_set l a (ground arith)))
  ]

contains_largest :
    (best : GstItem) (l : List GstItem)
    → contains (largest_of best l).id (best.id ∷ ids_of l) ≡ true
unfolding largest_of
contains_largest best [] = ground (arith, ==_refl best.id)
contains_largest best (i ∷ l) = elim (Bool-cases (ltb (gross_of best) (gross_of i))) [
  | inl bigger ↦ ground (arith, contains_largest i l)
  | inr smaller ↦ ground (arith, contains_largest best l)
]

empty_gross : (l : List GstItem) (total : ℕ) → l ≡ [] → min total (gross_subtotal_of l) ≡ 0
empty_gross [] total e = omega arith
empty_gross (i ∷ l) total e = cc

reconcile-given :
    (capped gross : ℕ) (l : List GstItem) (m : List (ℕ × ℤ))
    → IsApart l
    → given_of m l ≡ pos (allocated_sum capped gross l)
    → ((l ≡ []) → capped ≡ 0)
    → given_of (reconcile capped gross l m) l ≡ pos capped
unfolding reconcile
reconcile-given capped gross [] m a h empty = ap pos (sym (empty refl))
reconcile-given capped gross (i ∷ l) m a h empty =
    let sum = allocated_sum capped gross (i ∷ l) in
    let k = (largest_of i (i ∷ l)).id in
    let v = entry_or_zero k m +ℤ (pos capped -ℤ pos sum) in
    elim (Bool-cases (capped == sum)) [
      | inl same ↦
          let out : reconcile capped gross (i ∷ l) m ≡ m = ground arith in
          ap (λ (x : List (ℕ × ℤ)). given_of x (i ∷ l)) out
          ∙ h
          ∙ ap pos (sym ((==_iff capped sum).0 same))
      | inr other ↦
          let out : reconcile capped gross (i ∷ l) m ≡ set_entry k v m = ground arith in
          let inside : contains k (ids_of (i ∷ l)) ≡ true =
            ground (arith, contains_largest i (i ∷ l)) in
          let moved = given_set k v m (i ∷ l) a inside in
          ap (λ (x : List (ℕ × ℤ)). given_of x (i ∷ l)) out
          ∙ cancel (given_of (set_entry k v m) (i ∷ l)) (entry_or_zero k m) capped sum
              (moved ∙ ap (λ (x : ℤ). x +ℤ v) h)
    ]

-- The discounts allocated to items with distinct identifiers add up to the discount of the order, or
-- to the order's gross subtotal where that is less: rounding loses nothing.
pub allocate_discounts_lem :
    (l : List GstItem) (total : ℕ)
    → IsApart l
    → given_of (allocate_discounts l total) l ≡ pos (min total (gross_subtotal_of l))
unfolding allocate_discounts
allocate_discounts_lem l total a =
    let gross = gross_subtotal_of l in
    let capped = min total gross in
    elim (Bool-cases ((total == 0) || (gross == 0))) [
      | inl nothing ↦
          let out : allocate_discounts l total ≡ set_zeros l [] = ground arith in
          let none_left : min total gross ≡ 0 = ground arith in
          rw (out, none_left) (given_zeros (set_zeros l []) l (λ j. entry_set_zeros j l [] refl))
      | inr something ↦
          let out : allocate_discounts l total
              ≡ reconcile capped gross l (set_shares capped gross l []) =
            ground arith in
          rw out (
            reconcile-given capped gross l (set_shares capped gross l []) a
              (given_shares capped gross l [] a) (λ e. empty_gross l total e))
    ]
