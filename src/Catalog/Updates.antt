-- ===== src/Catalog/Updates.antt =====
-- The invariant of the category table, and the writes of `category.service.ts` on it
-- (`src/modules/catalog/services`).
use mathlib.Core.Option
use meeo_server.Base.{
  ℕ, ◌≡◌, sym, ◌∙◌, subst, ◌⊎◌, inl, inr, Option, none, some, false, arith, ◌==◌, ==_iff,
  if◌then◌else◌, Bool-cases, Option-cases,
}
use meeo_server.Orm.{Orm}
use meeo_server.Catalog.Rows.{Category}
use meeo_server.Catalog.Categories.{parent_of, is_child_of}
use meeo_server.Catalog.Ancestors.{Reaches}
use meeo_server.Catalog.Forest.{IsAcyclic, link-IsAcyclic, map-IsAcyclic}

module _ (o : Orm) where
  abbrev pub IsStored : ℕ → o.Table Category → Type 0
  IsStored w t = (c : Category) × (o.find Category w t ≡ some c)

  -- No category is above itself, every parent is stored, and no two categories share a slug.
  pub record IsForest (t : o.Table Category) : Type 0 where
    pub acyclic : IsAcyclic (parent_of o t)
    pub rooted : (k w : ℕ) → parent_of o t k ≡ some w → IsStored w t
    pub unique :
        (j k : ℕ) (a b : Category)
        → o.find Category j t ≡ some a
        → o.find Category k t ≡ some b
        → a.slug ≡ b.slug
        → j ≡ k

  -- A parent that a category may be given: the one it has, or a stored one that is not below it.
  abbrev pub IsAllowed : ℕ → Option ℕ → o.Table Category → Type 0
  IsAllowed id x t =
      (w : ℕ)
      → x ≡ some w
      → (parent_of o t id ≡ some w) ⊎ (IsStored w t × ¬ (Reaches (parent_of o t) w id))

  -- From a stored key, chains lead to stored keys.
  pub Reaches-IsStored :
      (t : o.Table Category)
      → IsForest t
      → {a b : ℕ} → Reaches (parent_of o t) a b
      → IsStored a t
      → IsStored b t
  Reaches-IsStored t f Reaches.here stored = stored
  Reaches-IsStored t f (Reaches.up {a = a} {b = x} {c = b} e r) stored =
      Reaches-IsStored t f r (f.rooted a x e)

  module _ (id : ℕ) (c : Category) (t : o.Table Category) (f : IsForest t) where
    abbrev written : o.Table Category
    written = o.write Category id c t

    link : (k : ℕ) → parent_of o written k ≡ (if id == k then c.parent else parent_of o t k)
    link k = ground (arith, o.find-write Category k id c t)

    write-IsAcyclic : IsAllowed id c.parent t → IsAcyclic (parent_of o written)
    write-IsAcyclic allowed = elim (Option-cases c.parent) [
      | inl e ↦ map-IsAcyclic (λ a b h. (b, ground (arith, link a), Reaches.here)) f.acyclic
      | inr (w, e) ↦ elim (allowed w e) [
        | inl same ↦
            map-IsAcyclic (λ a b h. (b, ground (arith, link a, ==_iff id a), Reaches.here))
              f.acyclic
        | inr (_, apart) ↦ link-IsAcyclic id w (λ k. ground (arith, link k)) f.acyclic apart
      ]
    ]

    stays : (w : ℕ) → IsStored w t → IsStored w written
    stays w (r, e) = elim (Bool-cases (id == w)) [
      | inl same ↦ (c, ground (arith, o.find-write Category w id c t))
      | inr other ↦ (r, ground (arith, o.find-write Category w id c t))
    ]

    write-rooted :
        IsAllowed id c.parent t → (k w : ℕ) → parent_of o written k ≡ some w → IsStored w written
    write-rooted allowed k w e = elim (Bool-cases (id == k)) [
      | inl same ↦
          let at : id ≡ k = (==_iff id k).0 same in
          elim (allowed w (ground (arith, link k))) [
            | inl before ↦ stays w (f.rooted id w before)
            | inr (stored, _) ↦ stays w stored
          ]
      | inr other ↦ stays w (f.rooted k w (ground (arith, link k)))
    ]

    write_unique :
        ((j : ℕ) (a : Category) → o.find Category j t ≡ some a → a.slug ≡ c.slug → j ≡ id)
        → (j k : ℕ) (a b : Category) → o.find Category j written ≡ some a
        → o.find Category k written ≡ some b
        → a.slug ≡ b.slug
        → j ≡ k
    write_unique alone j k a b e1 e2 same = ground (
      arith,
      o.find-write Category j id c t,
      o.find-write Category k id c t,
      alone j a,
      alone k b,
      f.unique j k a b,
    )

    -- A row written with an allowed parent, and with a slug that no other row has.
    pub write-IsForest :
        IsAllowed id c.parent t
        → ((j : ℕ) (a : Category) → o.find Category j t ≡ some a → a.slug ≡ c.slug → j ≡ id)
        → IsForest written
    write-IsForest allowed alone = record {
      acyclic = write-IsAcyclic allowed;
      rooted = λ k w e. write-rooted allowed k w e;
      unique = λ j k a b e1 e2 same. write_unique alone j k a b e1 e2 same;
    }

  module _ (id : ℕ) (existing : Category) (t t' : o.Table Category) (f : IsForest t)
      (here : o.find Category id t ≡ some existing)
      (removed : (j : ℕ)
        → o.find Category j t' ≡ (
            if id == j
            then none
            else Option.map
                (λ c. if is_child_of o id c then record c { parent = existing.parent } else c)
                (o.find Category j t))) where
    abbrev up_of : ℕ → Option ℕ
    up_of = parent_of o t

    abbrev up_after : ℕ → Option ℕ
    up_after = parent_of o t'

    -- A step after the removal is a step of before, or one over the removed key.
    remove-step :
        (a b : ℕ)
        → up_after a ≡ some b
        → ((up_of a ≡ some b) × ((id == b) ≡ false)) ⊎ ((up_of a ≡ some id) × (up_of id ≡ some b))
    remove-step a b e = elim (Option-cases (o.find Category a t)) [
      | inl gone ↦ ground (arith, removed a)
      | inr (c, found) ↦ elim (Option-cases c.parent) [
        | inl top ↦ ground (arith, removed a)
        | inr (w, top) ↦ elim (Bool-cases (w == id)) [
          | inl child ↦ let at : w ≡ id = (==_iff w id).0 child in inr (ground (arith, removed a))
          | inr other ↦ inl (ground (arith, removed a))
        ]
      ]
    ]

    remove-stays : (w : ℕ) → (id == w) ≡ false → IsStored w t → IsStored w t'
    remove-stays w other (c, e) = (
      if is_child_of o id c then record c { parent = existing.parent } else c,
      ground (arith, removed w),
    )

    not_own : (w : ℕ) → up_of id ≡ some w → (id == w) ≡ false
    not_own w e = elim (Bool-cases (id == w)) [
      | inr other ↦ other
      | inl same ↦
          absurd
            (f.acyclic id w e (subst (λ k. Reaches up_of k id) ((==_iff id w).0 same) Reaches.here))
    ]

    remove-rooted : (k w : ℕ) → up_after k ≡ some w → IsStored w t'
    remove-rooted k w e = elim (remove-step k w e) [
      | inl (old, other) ↦ remove-stays w other (f.rooted k w old)
      | inr (_, next) ↦ remove-stays w (not_own w next) (f.rooted id w next)
    ]

    slug-same :
        (j : ℕ) (a : Category)
        → o.find Category j t' ≡ some a
        → (c : Category) × (o.find Category j t ≡ some c) × (c.slug ≡ a.slug)
    slug-same j a e = elim (Option-cases (o.find Category j t)) [
      | inl gone ↦ absurd (ground (arith, removed j))
      | inr (c, found) ↦ (c, found, ground (arith, removed j))
    ]

    -- A category removed, its children given to its parent.
    pub remove-IsForest : IsForest t'
    remove-IsForest = record {
      acyclic =
          map-IsAcyclic
            (λ a b e. elim (remove-step a b e) [
              | inl (old, _) ↦ (b, old, Reaches.here)
              | inr (old, next) ↦ (id, old, Reaches.up next Reaches.here)
            ])
            f.acyclic;
      rooted = λ k w e. remove-rooted k w e;
      unique = λ j k a b e1 e2 same.
          let (c1, f1, s1) = slug-same j a e1 in
          let (c2, f2, s2) = slug-same k b e2 in f.unique j k c1 c2 f1 f2 (s1 ∙ same ∙ sym s2);
    }
