-- ===== src/Catalog/Forest.antt =====
-- The tree of categories: what setting a parent, creating and removing a category do to it
-- (`src/modules/catalog/services/category.service.ts`).
use meeo_server.Base.{
  ℕ, ◌≡◌, sym, subst, ◌⊎◌, inl, inr, Option, some, arith, ◌==◌, ==_iff, if◌then◌else◌, Bool-cases,
}
use meeo_server.Catalog.Ancestors.{Reaches, Reaches-join}

-- No key is on the chain above its own parent.
abbrev pub IsAcyclic : (ℕ → Option ℕ) → Type 0
IsAcyclic p = (k w : ℕ) → p k ≡ some w → ¬ (Reaches p w k)

-- A chain whose steps are chains of another graph is one there.
pub Reaches-map :
    {p q : ℕ → Option ℕ}
    → ((a b : ℕ) → p a ≡ some b → Reaches q a b)
    → {a b : ℕ} → Reaches p a b
    → Reaches q a b
Reaches-map f Reaches.here = Reaches.here
Reaches-map f (Reaches.up {a} {b} e r) = Reaches-join (f a b e) (Reaches-map f r)

module _ {p q : ℕ → Option ℕ} (id w : ℕ)
    (link : (k : ℕ) → q k ≡ (if id == k then some w else p k)) where
  -- A chain after the link is one from before, or goes up to the link and on from its end.
  Reaches-link : {a b : ℕ} → Reaches q a b → Reaches p a b ⊎ (Reaches p a id × Reaches p w b)
  Reaches-link Reaches.here = inl Reaches.here
  Reaches-link (Reaches.up {a} {b = x} {c = b} e r) = elim (Bool-cases (id == a)) [
    | inl same ↦
        let at : id ≡ a = (==_iff id a).0 same in
        let next : w ≡ x = ground (arith, link a) in
        let start : Reaches p a id = subst (λ k. Reaches p k id) at Reaches.here in
        elim (Reaches-link r) [
          | inl old ↦ inr (start, subst (λ k. Reaches p k b) (sym next) old)
          | inr (_, old) ↦ inr (start, old)
        ]
    | inr other ↦
        let old : p a ≡ some x = ground (arith, link a) in
        elim (Reaches-link r) [
          | inl tail ↦ inl (Reaches.up old tail)
          | inr (tail, rest) ↦ inr (Reaches.up old tail, rest)
        ]
  ]

  -- A link to a key from which no chain leads back closes no cycle.
  pub link-IsAcyclic : IsAcyclic p → ¬ (Reaches p w id) → IsAcyclic q
  link-IsAcyclic acyclic apart k x e r = elim (Bool-cases (id == k)) [
    | inl same ↦
        let at : id ≡ k = (==_iff id k).0 same in
        let next : w ≡ x = ground (arith, link k) in
        elim (Reaches-link r) [
          | inl old ↦
              apart
                (subst (λ j. Reaches p w j) (sym at) (subst (λ j. Reaches p j k) (sym next) old))
          | inr (old, _) ↦ apart (subst (λ j. Reaches p j id) (sym next) old)
        ]
    | inr other ↦
        let old : p k ≡ some x = ground (arith, link k) in
        elim (Reaches-link r) [
          | inl tail ↦ acyclic k x old tail
          | inr (tail, rest) ↦ apart (Reaches-join rest (Reaches.up old tail))
        ]
  ]

-- A graph whose steps are chains of an acyclic graph, of one step at least, is acyclic.
pub map-IsAcyclic :
    {p q : ℕ → Option ℕ}
    → ((a b : ℕ) → q a ≡ some b → (c : ℕ) × (p a ≡ some c) × Reaches p c b)
    → IsAcyclic p
    → IsAcyclic q
map-IsAcyclic {p} {q} f acyclic k w e r =
    let steps = λ (a b : ℕ) (h : q a ≡ some b). let (c, e1, r1) = f a b h in Reaches.up e1 r1 in
    let (c, e1, r1) = f k w e in acyclic k c e1 (Reaches-join r1 (Reaches-map steps r))
