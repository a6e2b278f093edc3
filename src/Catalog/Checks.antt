-- ===== src/Catalog/Checks.antt =====
-- The checks of `category.service.ts` (`src/modules/catalog/services`): none of them writes, and what
-- holds when none of them throws.
use meeo_server.Base.{
  ℕ, ◌≡◌, ◌≢◌, refl, sym, ◌∙◌, ap, subst, ◌⊎◌, inl, inr, Option, none, some, true, false, [], ◌∷◌,
  arith, ◌==◌, ==_iff, Bool-cases, Option-cases,
}
use meeo_server.Base.Result.{ok, err}
use meeo_server.Orm.{Orm}
use meeo_server.Store.Rows.{find_first-found, find_first-none}
use meeo_server.Catalog.Slugs.{Text, same_text}
use meeo_server.Catalog.Rows.{Category, CategoryError, CategoryTables, same_parent, given_or}
use meeo_server.Catalog.Categories.{
  parent_of, by_slug, new_slug, check_new_parent, check_changed_parent, check_parent,
}
use meeo_server.Catalog.Ancestors.{Reaches, is_descendant_of_lem}
use meeo_server.Catalog.Updates.{IsStored, IsAllowed}

same_text-true : (a b : Text) → same_text a b ≡ true → a ≡ b
same_text-true [] [] h = refl
same_text-true [] (y ∷ b) h = cc
same_text-true (x ∷ a) [] h = cc
same_text-true (x ∷ a) (y ∷ b) h = ground (arith, same_text-true a b)

pub same_text-same : (a : Text) → same_text a a ≡ true
same_text-same [] = refl
same_text-same (x ∷ a) = ground (arith, same_text-same a)

same_parent-true : (a b : Option ℕ) → same_parent a b ≡ true → a ≡ b
same_parent-true none none h = refl
same_parent-true none (some b) h = cc
same_parent-true (some a) none h = cc
same_parent-true (some a) (some b) h = ground arith

module _ (o : Orm) (id : ℕ) (s : CategoryTables o) where
  -- No other row has a slug.
  abbrev pub IsAlone : Text → Type 0
  IsAlone slug =
      (j : ℕ) (a : Category) → o.find Category j s.categories ≡ some a → a.slug ≡ slug → j ≡ id

  pub none_with_slug :
      (slug : Text)
      → by_slug o slug s ≡ none
      → (j : ℕ) (a : Category) → o.find Category j s.categories ≡ some a
      → a.slug ≢ slug
  none_with_slug slug e j a stored same =
      let missed =
        find_first-none o (λ (c : Category). same_text c.slug slug) s.categories j a e stored in
      let hit = subst (λ x. same_text x slug ≡ true) (sym same) (same_text-same slug) in cc

  other_slug :
      (slug : Text) (existing : Category)
      → o.find Category id s.categories ≡ some existing
      → same_text slug existing.slug ≡ false
      → ((e : CategoryError) × (new_slug o id (some slug) existing s ≡ (err e, s)))
        ⊎ ((next : Text) × (new_slug o id (some slug) existing s ≡ (ok next, s))
            × ((next ≡ existing.slug) ⊎ IsAlone next))
  unfolding new_slug
  other_slug slug existing here other = elim (Option-cases (by_slug o slug s)) [
    | inl e ↦ inr (
      slug,
      ground arith,
      inr (λ j a stored same. absurd (none_with_slug slug e j a stored same)),
    )
    | inr ((k, c), e) ↦ elim (Bool-cases (k == id)) [
      | inr apart ↦ inl (CategoryError.slug_taken, ground arith)
      | inl same ↦
          let (stored, hit) =
            find_first-found o (λ (x : Category). same_text x.slug slug) s.categories k c e in
          let at : k ≡ id = (==_iff k id).0 same in
          let row : c ≡ existing = ground arith in
          let slug_eq : c.slug ≡ slug = same_text-true c.slug slug hit in
          let back : slug ≡ existing.slug = sym slug_eq ∙ ap (λ (x : Category). x.slug) row in
          let yes_same = subst (λ x. same_text slug x ≡ true) back (same_text-same slug) in
          absurd (cc)
    ]
  ]

  pub new_slug_lem :
      (candidate : Option Text) (existing : Category)
      → o.find Category id s.categories ≡ some existing
      → ((e : CategoryError) × (new_slug o id candidate existing s ≡ (err e, s)))
        ⊎ ((slug : Text) × (new_slug o id candidate existing s ≡ (ok slug, s))
            × ((slug ≡ existing.slug) ⊎ IsAlone slug))
  unfolding new_slug
  new_slug_lem none existing here = inr (existing.slug, refl, inl refl)
  new_slug_lem (some slug) existing here = elim (Bool-cases (same_text slug existing.slug)) [
    | inl same ↦ inr (existing.slug, ground arith, inl refl)
    | inr other ↦ other_slug slug existing here other
  ]

  pub check_new_parent_lem :
      (parent : Option ℕ)
      → ((e : CategoryError) × (check_new_parent o parent s ≡ (err e, s)))
        ⊎ ((check_new_parent o parent s ≡ (ok tt, s))
            × ((w : ℕ) → parent ≡ some w → IsStored o w s.categories))
  unfolding check_new_parent
  check_new_parent_lem none = inr (refl, λ w e. cc)
  check_new_parent_lem (some w) = elim (Option-cases (o.find Category w s.categories)) [
    | inl gone ↦ inl (CategoryError.parent_not_found, ground arith)
    | inr (c, found) ↦ inr (ground arith, λ k e. (c, ground arith))
  ]

  -- A changed parent that passes its checks is stored and not below the category.
  check_changed_parent_lem :
      (parent : Option ℕ)
      → ((e : CategoryError) × (check_changed_parent o id parent s ≡ (err e, s)))
        ⊎ ((check_changed_parent o id parent s ≡ (ok tt, s)) × IsAllowed o id parent s.categories)
  unfolding check_changed_parent
  check_changed_parent_lem none = inr (refl, λ w e. cc)
  check_changed_parent_lem (some w) = elim (Bool-cases (w == id)) [
    | inl own ↦ inl (CategoryError.own_parent, ground arith)
    | inr other ↦ elim (Option-cases (o.find Category w s.categories)) [
      | inl gone ↦ inl (CategoryError.parent_not_found, ground arith)
      | inr (c, found) ↦ elim (is_descendant_of_lem o s.categories id w) [
        | inl (below, _) ↦ inl (CategoryError.circular, ground arith)
        | inr (free, apart) ↦ inr (
          ground arith,
          λ k e. inr (
              subst (λ j. IsStored o j s.categories × ¬ (Reaches (parent_of o s.categories) j id))
                (ground arith) ((c, found), apart)),
        )
      ]
    ]
  ]

  pub check_parent_lem :
      (parent : Option (Option ℕ)) (existing : Category)
      → o.find Category id s.categories ≡ some existing
      → ((e : CategoryError) × (check_parent o id parent existing s ≡ (err e, s)))
        ⊎ ((check_parent o id parent existing s ≡ (ok tt, s))
            × IsAllowed o id (given_or parent existing.parent) s.categories)
  unfolding check_parent
  check_parent_lem none existing here = inr (refl, λ w e. inl (ground arith))
  check_parent_lem (some parent) existing here =
      elim (Bool-cases (same_parent parent existing.parent)) [
        | inl same ↦
            let eq = same_parent-true parent existing.parent same in
            inr (ground arith, λ w e. inl (ground arith))
        | inr other ↦ elim (check_changed_parent_lem parent) [
          | inl (e, thrown) ↦ inl (e, ground arith)
          | inr (passed, allowed) ↦ inr (ground arith, allowed)
        ]
      ]
