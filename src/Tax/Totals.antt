-- ===== src/Tax/Totals.antt =====
-- `calculateOrderGst` (`src/modules/tax/services/gstEngine.service.ts`): the grand total and the lines.
use meeo_server.Base.{
  ℕ, ◌+◌, ◌≤◌, ◌≡◌, refl, sym, ◌∙◌, ap, inl, inr, Bool, false, Option, List, [], ◌∷◌, arith,
  if◌then◌else◌, sum_by, All, Bool-cases,
}
use meeo_server.Base.Int.{ℤ, pos, pos_part, neg_part, ◌+ℤ◌, ◌-ℤ◌, ◌≤ℤ◌, int_laws}
use meeo_server.Tax.Gst.{
  GstItem, is_inter_state, gross_of, gross_subtotal_of, entry_or_zero, allocate_discounts, Line,
  line_of, lines_of, shipping_of, some_exclusive, calculate_order_gst,
}
use meeo_server.Tax.Shares.{sum_of, IsApart, given_of, allocate_discounts_lem}

-- No item is given more than its gross total.
abbrev pub IsWithin : List (ℕ × ℤ) → List GstItem → Type 0
IsWithin m l = All (λ i. entry_or_zero i.id m ≤ℤ pos (gross_of i)) l

-- The tax of a line whose price includes it.
abbrev pub included_tax : Line → ℕ
included_tax x = if x.is_inclusive then x.total_tax else 0

abbrev pub final_sum : List Line → ℤ
final_sum l = sum_of (λ (x : Line). x.final_total) l

abbrev tax_sum : List Line → ℕ
tax_sum l = sum_by (λ (x : Line). x.total_tax) l

add_line :
    (f fs a as' : ℤ) (n ns g gs t ts : ℕ)
    → f +ℤ pos n ≡ pos g -ℤ a +ℤ pos t
    → fs +ℤ pos ns +ℤ as' ≡ pos (gs + ts)
    → f +ℤ fs +ℤ pos (n + ns) +ℤ (a +ℤ as') ≡ pos (g + gs + (t + ts))
add_line f fs a as' n ns g gs t ts h k =
    omega (int_laws, ap pos_part h, ap neg_part h, ap pos_part k, ap neg_part k)

one_part : (z : ℤ) → neg_part z ≤ pos_part z → neg_part z ≡ 0
one_part z h = ground arith

exclusive_line :
    (a : ℤ) (g n t : ℕ)
    → a ≤ℤ pos g
    → n ≡ pos_part (pos g -ℤ a)
    → pos (n + t) +ℤ pos 0 ≡ pos g -ℤ a +ℤ pos t
exclusive_line a g n t within net = omega (int_laws, net, one_part (pos g -ℤ a))

-- What is left to pay of the gross, with an addition.
grand_lem :
    (f y : ℤ) (h g d s x a : ℕ)
    → f +ℤ pos h +ℤ pos d ≡ pos (g + x)
    → d ≤ g
    → y ≡ pos a
    → pos (pos_part (pos g -ℤ pos d +ℤ pos s +ℤ y)) +ℤ pos x ≡ f +ℤ pos s +ℤ pos (h + a)
grand_lem f y h g d s x a e le eq =
    rw eq
      (omega (int_laws, ap pos_part e, ap neg_part e, one_part (pos g -ℤ pos d +ℤ pos s +ℤ pos a)))

drop_tax :
    (z w : ℤ) (h a x : ℕ) → z +ℤ pos x ≡ w +ℤ pos (h + a) → (k : ℕ) → h + a ≡ k + x → z ≡ w +ℤ pos k
drop_tax z w h a x e k eq = omega (int_laws, ap pos_part e, ap neg_part e, eq)

module _ (inter_state : Bool) (m : List (ℕ × ℤ)) where
  line_final :
      (i : GstItem)
      → let x = line_of inter_state m i in
        x.final_total ≡ (
          if i.is_inclusive
          then pos (gross_of i) -ℤ entry_or_zero i.id m
          else pos (x.net_taxable + x.total_tax))
  unfolding line_of
  line_final i = refl

  line_net :
      (i : GstItem)
      → i.is_inclusive ≡ false
      → (line_of inter_state m i).net_taxable ≡ pos_part (pos (gross_of i) -ℤ entry_or_zero i.id m)
  unfolding line_of
  line_net i e = rw e refl

  line_inclusive : (i : GstItem) → (line_of inter_state m i).is_inclusive ≡ i.is_inclusive
  unfolding line_of
  line_inclusive i = refl

  line_tax :
      (i : GstItem)
      → let x = line_of inter_state m i in
        x.total_tax ≡ x.cgst_amount + x.sgst_amount + x.igst_amount + x.cess_amount
  unfolding line_of
  line_tax i = refl

  -- The final total of a line, and the tax that its price includes, are what is left to pay of its
  -- gross total, and its tax.
  line_lem :
      (i : GstItem)
      → entry_or_zero i.id m ≤ℤ pos (gross_of i)
      → let x = line_of inter_state m i in
        x.final_total +ℤ pos (included_tax x)
        ≡ pos (gross_of i) -ℤ entry_or_zero i.id m +ℤ pos x.total_tax
  line_lem i within =
      let x = line_of inter_state m i in
      let a = entry_or_zero i.id m in
      let g = gross_of i in
      elim (Bool-cases i.is_inclusive) [
        | inl e ↦
            let final : x.final_total ≡ pos g -ℤ a = ground (arith, line_final i) in
            let tax : included_tax x ≡ x.total_tax = ground (arith, line_inclusive i) in
            rw (final, tax) refl
        | inr e ↦
            let final : x.final_total ≡ pos (x.net_taxable + x.total_tax) =
              ground (arith, line_final i) in
            let tax : included_tax x ≡ 0 = ground (arith, line_inclusive i) in
            let net = line_net i e in
            rw (final, tax)
              (exclusive_line (entry_or_zero i.id m) (gross_of i) x.net_taxable x.total_tax within
                net)
      ]

  lines_lem :
      (l : List GstItem)
      → IsWithin m l
      → let lines = lines_of inter_state m l in
        final_sum lines +ℤ pos (sum_by included_tax lines) +ℤ given_of m l
        ≡ pos (gross_subtotal_of l + tax_sum lines)
  unfolding lines_of
  lines_lem [] h = omega int_laws
  lines_lem (i ∷ l) (h, hs) =
      let x = line_of inter_state m i in
      add_line x.final_total (final_sum (lines_of inter_state m l)) (entry_or_zero i.id m)
        (given_of m l) (included_tax x) (sum_by included_tax (lines_of inter_state m l))
        (gross_of i) (gross_subtotal_of l) x.total_tax (tax_sum (lines_of inter_state m l))
        (line_lem i h) (lines_lem l hs)

  taxes_lem :
      (l : List GstItem)
      → let lines = lines_of inter_state m l in
        tax_sum lines
        ≡ sum_by (λ (x : Line). x.cgst_amount) lines
          + sum_by (λ (x : Line). x.sgst_amount) lines
          + sum_by (λ (x : Line). x.igst_amount) lines
          + sum_by (λ (x : Line). x.cess_amount) lines
  unfolding lines_of
  taxes_lem [] = refl
  taxes_lem (i ∷ l) = omega (arith, line_tax i, taxes_lem l)

  -- Where no item is exclusive, all tax is included.
  included_lem :
      (l : List GstItem)
      → some_exclusive l ≡ false
      → let lines = lines_of inter_state m l in sum_by included_tax lines ≡ tax_sum lines
  unfolding lines_of
  included_lem [] e = refl
  included_lem (i ∷ l) e =
      let first : included_tax (line_of inter_state m i) ≡ (line_of inter_state m i).total_tax =
        ground (arith, line_inclusive i) in
      omega (arith, first, included_lem l (ground arith))

shipping_tax :
    (inter_state : Bool) (fee rate : ℕ)
    → let x = shipping_of inter_state fee rate in
      x.total_tax ≡ x.cgst_amount + x.sgst_amount + x.igst_amount
unfolding shipping_of
shipping_tax inter_state fee rate = refl

-- The grand total of an order whose items have distinct identifiers, whose discount its gross
-- subtotal covers, and where rounding gives no item more discount than its gross total, is the sum of
-- the lines' final totals and of the shipping total; where some item's price excludes the tax, the
-- tax that other items' prices include is added once more.
pub calculate_order_gst_lem :
    (seller customer : Option ℕ) (items : List GstItem) (discount fee : ℕ) (free : Bool) (rate : ℕ)
    → IsApart items
    → discount ≤ gross_subtotal_of items
    → IsWithin (allocate_discounts items discount) items
    → let r = calculate_order_gst seller customer items discount fee free rate in
      pos r.totals.grand_total
      ≡ final_sum r.lines
        +ℤ pos r.totals.shipping_total
        +ℤ pos (if some_exclusive items then sum_by included_tax r.lines else 0)
unfolding calculate_order_gst
calculate_order_gst_lem seller customer items discount fee free rate apart covered within =
    let inter_state = is_inter_state seller customer in
    let m = allocate_discounts items discount in
    let lines = lines_of inter_state m items in
    let ship = shipping_of inter_state (if free then 0 else fee) rate in
    let g = gross_subtotal_of items in
    let f = final_sum lines in
    let h = sum_by included_tax lines in
    let x = tax_sum lines in
    let given : given_of m items ≡ pos discount =
      allocate_discounts_lem items discount apart ∙ ap pos (omega arith) in
    let paid : f +ℤ pos h +ℤ pos discount ≡ pos (g + x) =
      ap (λ (z : ℤ). f +ℤ pos h +ℤ z) (sym given) ∙ lines_lem inter_state m items within in
    let taxes = taxes_lem inter_state m items in
    let shipped = shipping_tax inter_state (if free then 0 else fee) rate in
    elim (Bool-cases (some_exclusive items)) [
      | inl e ↦
          let y =
            pos (
              sum_by (λ (l : Line). l.cgst_amount) lines
              + ship.cgst_amount
              + (sum_by (λ (l : Line). l.sgst_amount) lines + ship.sgst_amount)
              + (sum_by (λ (l : Line). l.igst_amount) lines + ship.igst_amount)
              + sum_by (λ (l : Line). l.cess_amount) lines)
            -ℤ pos ship.total_tax in
          let added : y ≡ pos x = omega (int_laws, taxes, shipped) in
          rw (calculate_order_gst, e)
            (drop_tax _ (f +ℤ pos ship.final_total) h x x
              (grand_lem f y h g discount ship.final_total x x paid covered added) h refl)
      | inr e ↦
          let all_in = included_lem inter_state m items e in
          rw (calculate_order_gst, e)
            (drop_tax _ (f +ℤ pos ship.final_total) h 0 x
              (grand_lem f (pos 0) h g discount ship.final_total x 0 paid covered refl) 0
              (omega (arith, all_in)))
    ]
