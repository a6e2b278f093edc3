-- ===== src/Catalog/Categories.antt =====
-- `category.service.ts` and `isDescendantOf` of `categoryHierarchy.service.ts`, of
-- `src/modules/catalog/services`. Caches are not modelled.
use meeo_server.Base.{
  ℕ, zero, suc, Option, none, some, Bool, true, false, not, ◌||◌, List, [], ◌∷◌, length, ◌==◌, ltb,
  contains,
}
use meeo_server.Base.Result.{ok, err, ◌>>=◌, ◌>>◌, pure, raise_if, or_raise, gets}
use meeo_server.Orm.{Orm}
use meeo_server.Store.{rewrite_all, find_first}
use meeo_server.Catalog.Slugs.{Text, same_text, Texts, slugify}
use meeo_server.Catalog.Rows.{
  Category, Permission, User, CategoryError, CategoryTables, CategoryService, CreateInput,
  UpdateInput, is_empty, text_or, given_or, same_parent, refusal,
}

module _ (o : Orm) where
  abbrev pub parent_of : o.Table Category → ℕ → Option ℕ
  parent_of t k = elim (o.find Category k t) [ none ↦ none | some c ↦ c.parent ]

  -- The loop of `isDescendantOf`; without fuel it returns nothing.
  unfoldable pub climb : o.Table Category → ℕ → ℕ → List ℕ → Option ℕ → Option Bool
  climb t ancestor fuel visited none = some false
  climb t ancestor zero visited (some k) = none
  climb t ancestor (suc fuel) visited (some k) = elim (k == ancestor) [
    | true ↦ some true
    | false ↦ elim (contains k visited) [
      | true ↦ some false
      | false ↦ climb t ancestor fuel (k ∷ visited) (parent_of t k)
    ]
  ]

  -- A round of the loop for each category, one for a key with no row, and one that ends it.
  abbrev pub climb_fuel : o.Table Category → ℕ
  climb_fuel t = suc (suc (length (o.find_many Category (λ c. true) t)))

  unfoldable pub is_descendant_of : ℕ → ℕ → o.Table Category → Option Bool
  is_descendant_of descendant ancestor t = climb t ancestor (climb_fuel t) [] (some descendant)

  abbrev pub by_slug : Text → CategoryTables o → Option (ℕ × Category)
  by_slug slug s = find_first o (λ c. same_text c.slug slug) s.categories

  -- The found row, if any, is another than the one under a key.
  abbrev pub is_other : ℕ → Option (ℕ × Category) → Bool
  is_other id none = false
  is_other id (some (k, c)) = not (k == id)

  abbrev pub is_found : Option (ℕ × Category) → Bool
  is_found none = false
  is_found (some x) = true

  abbrev pub or_pass : Option CategoryError → CategoryService o (Unit {0})
  or_pass none s = (ok tt, s)
  or_pass (some e) s = (err e, s)

  write_category : ℕ → Category → CategoryService o (ℕ × Category)
  write_category k c s = (ok (k, c), record s { categories = o.write Category k c s.categories })

  -- `if (input.parentId) { … }` of `createCategory`
  unfoldable pub check_new_parent : Option ℕ → CategoryService o (Unit {0})
  check_new_parent none = pure tt
  check_new_parent (some w) = do
    or_raise (← gets (λ s. o.find Category w s.categories)) CategoryError.parent_not_found
    pure tt

  unfoldable pub create_category : Texts → CreateInput → Option ℕ → CategoryService o (ℕ × Category)
  unfolding write_category
  create_category js input creator =
      let slug = text_or input.slug (slugify js input.name) in
      do
        raise_if (is_empty slug) CategoryError.no_slug
        found ← gets (by_slug slug)
        raise_if (is_found found) CategoryError.slug_taken
        check_new_parent input.parent
        k ← gets (λ s. o.fresh Category s.categories)
        write_category k (record {
          parent = input.parent;
          creator = creator;
          name = input.name;
          slug = slug;
          description = input.description;
          image_url = input.image_url;
          status = input.status;
          sort_order = input.sort_order;
        })

  -- `candidateSlug`, if an update has one.
  unfoldable pub candidate_slug : Texts → UpdateInput → Category → Option Text
  candidate_slug js input existing = elim (is_empty (given_or input.slug [])) [
    | false ↦ input.slug
    | true ↦
        let name = given_or input.name [] in
        elim (is_empty name || same_text name existing.name) [
          | true ↦ none
          | false ↦ some (slugify js name)
        ]
  ]

  unfoldable pub new_slug : ℕ → Option Text → Category → CategoryService o Text
  new_slug id none existing = pure existing.slug
  new_slug id (some slug) existing = elim (same_text slug existing.slug) [
    | true ↦ pure existing.slug
    | false ↦ do
      found ← gets (by_slug slug)
      raise_if (is_other id found) CategoryError.slug_taken
      pure slug
  ]

  -- The checks on a parent that differs from the present one.
  unfoldable pub check_changed_parent : ℕ → Option ℕ → CategoryService o (Unit {0})
  check_changed_parent id none = pure tt
  check_changed_parent id (some w) = do
    raise_if (w == id) CategoryError.own_parent
    or_raise (← gets (λ s. o.find Category w s.categories)) CategoryError.parent_not_found
    below ← or_raise (← gets (λ s. is_descendant_of w id s.categories)) CategoryError.unfinished
    raise_if below CategoryError.circular

  unfoldable pub check_parent : ℕ → Option (Option ℕ) → Category → CategoryService o (Unit {0})
  check_parent id none existing = pure tt
  check_parent id (some parent) existing = elim (same_parent parent existing.parent) [
    | true ↦ pure tt
    | false ↦ check_changed_parent id parent
  ]

  abbrev pub updated : UpdateInput → Text → Category → Category
  updated input slug c = record {
    parent = given_or input.parent c.parent;
    creator = c.creator;
    name = given_or input.name c.name;
    slug = slug;
    description = given_or input.description c.description;
    image_url = given_or input.image_url c.image_url;
    status = given_or input.status c.status;
    sort_order = given_or input.sort_order c.sort_order;
  }

  unfoldable pub update_category :
      Texts → ℕ → UpdateInput → Option User → CategoryService o (ℕ × Category)
  unfolding write_category
  update_category js id input user = do
    existing ←
        or_raise (← gets (λ s. o.find Category id s.categories)) CategoryError.category_not_found
    or_pass (
        refusal existing.creator user (Permission.category_update ∷ Permission.product_update ∷ []))
    slug ← new_slug id (candidate_slug js input existing) existing
    check_parent id input.parent existing
    write_category id (updated input slug existing)

  abbrev pub is_child_of : ℕ → Category → Bool
  is_child_of id c = elim c.parent [ none ↦ false | some p ↦ p == id ]

  abbrev pub is_product_of : ℕ → Option ℕ → Bool
  is_product_of id none = false
  is_product_of id (some k) = k == id

  move_children : ℕ → Option ℕ → CategoryService o (Unit {0})
  move_children id parent s =
      let children = o.find_many Category (is_child_of id) s.categories in
      let move = λ (c : Category). record c { parent = parent } in
      (ok tt, record s { categories = rewrite_all o move children s.categories })

  erase_category : ℕ → CategoryService o (Unit {0})
  erase_category id s = (ok tt, record s { categories = o.erase Category id s.categories })

  -- The callback of the transaction: `updateMany` on the children, if any, and `delete`.
  unfoldable pub delete_body : ℕ → Category → ℕ → CategoryService o (Unit {0})
  unfolding move_children erase_category
  delete_body id existing zero = erase_category id
  delete_body id existing (suc n) = do move_children id existing.parent; erase_category id

  unfoldable pub delete_category : ℕ → Option User → CategoryService o (Unit {0})
  delete_category id user = do
    existing ←
        or_raise (← gets (λ s. o.find Category id s.categories)) CategoryError.category_not_found
    products ← gets (λ s. length (o.find_many (Option ℕ) (is_product_of id) s.products))
    children ← gets (λ s. length (o.find_many Category (is_child_of id) s.categories))
    or_pass (
        refusal existing.creator user (Permission.category_delete ∷ Permission.product_delete ∷ []))
    raise_if (ltb 0 products) CategoryError.has_products
    o.transaction (CategoryTables o) CategoryError (Unit {0}) (delete_body id existing children)
