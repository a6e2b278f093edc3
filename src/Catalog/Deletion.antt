-- ===== src/Catalog/Deletion.antt =====
-- `deleteCategory` (`category.service.ts` of `src/modules/catalog/services`).
use mathlib.Core.Option
use meeo_server.Base.{
  ℕ, zero, suc, ◌≡◌, refl, sym, subst, inl, inr, Option, none, some, List, [], ◌∷◌, arith, ◌==◌,
  if◌then◌else◌, Bool-cases, Option-cases, length, ltb,
}
use meeo_server.Base.Result.{Result, ok}
use meeo_server.Orm.{Orm}
use meeo_server.Store.{rewrite_all}
use meeo_server.Store.Rows.{find-update_many}
use meeo_server.Catalog.Rows.{Category, CategoryError, CategoryTables, User, Permission, refusal}
use meeo_server.Catalog.Categories.{is_child_of, is_product_of, delete_body, delete_category}
use meeo_server.Catalog.Updates.{IsForest, remove-IsForest}

module _ (o : Orm) where
  module _ (id : ℕ) (c : Category) (s : CategoryTables o) where
    abbrev children : List (ℕ × Category)
    children = o.find_many Category (is_child_of o id) s.categories

    abbrev moved : Category → Category
    moved x = record x { parent = c.parent }

    -- What is left of each row when a category is removed and its children are moved.
    abbrev left_of : ℕ → Option Category
    left_of j =
        if id == j
        then none
        else Option.map (λ (x : Category). if is_child_of o id x then moved x else x)
            (o.find Category j s.categories)

    body_removed :
        (l : List (ℕ × Category)) (j : ℕ)
        → children ≡ l
        → o.find Category j (rewrite_all o moved l s.categories)
          ≡ Option.map
              (λ (x : Category). if is_child_of o id x then moved x else x)
              (o.find Category j s.categories)
        → o.find Category j (delete_body o id c (length l) s).1.categories ≡ left_of j
    unfolding delete_body rewrite_all
    body_removed [] j e law = ground (arith, o.find-erase Category j id s.categories)
    body_removed (x ∷ l) j e law =
        ground (arith, o.find-erase Category j id (rewrite_all o moved children s.categories))

    delete_body-removed :
        (j : ℕ)
        → o.find Category j (delete_body o id c (length children) s).1.categories ≡ left_of j
    delete_body-removed j =
        body_removed children j refl (find-update_many o (is_child_of o id) moved s.categories j)

    delete_body-ok :
        (n : ℕ)
        → (s' : CategoryTables o) × (delete_body o id c n s ≡ (ok tt, s'))
          × (s'.products ≡ s.products)
    unfolding delete_body
    delete_body-ok zero = (_, refl, refl)
    delete_body-ok (suc n) = (_, refl, refl)

  pub delete_category-IsForest :
      (id : ℕ) (user : Option User) (s : CategoryTables o)
      → IsForest o s.categories
      → IsForest o (delete_category o id user s).1.categories
  unfolding delete_category
  delete_category-IsForest id user s f = elim (Option-cases (o.find Category id s.categories)) [
    | inl gone ↦ ground arith
    | inr (c, here) ↦
        let rights = Permission.category_delete ∷ Permission.product_delete ∷ [] in
        elim (Option-cases (refusal c.creator user rights)) [
          | inr (e, refused) ↦ ground arith
          | inl granted ↦
              elim (Bool-cases
                (ltb 0 (length (o.find_many (Option ℕ) (is_product_of o id) s.products)))) [
                  | inl sold ↦ ground arith
                  | inr free ↦
                      let n = length (children id c s) in
                      let body = delete_body o id c n in
                      let (s', done, _) = delete_body-ok id c s n in
                      let after : (delete_category o id user s).1 ≡ (body s).1 = ground (
                        arith,
                        o.transaction-settle (CategoryTables o) CategoryError (Unit {0}) body s,
                      ) in
                      subst (λ (x : CategoryTables o). IsForest o x.categories) (sym after)
                        (remove-IsForest o id c s.categories (body s).1.categories f here
                          (λ j. delete_body-removed id c s j))
                ]
        ]
  ]

  -- Deleting a stored category that no product is in, by a user who may, returns. It removes that
  -- category, gives each of its children the parent that it had, and leaves every other category
  -- and the products as they were.
  pub delete_category_lem :
      (id : ℕ) (c : Category) (user : Option User) (s : CategoryTables o)
      → o.find Category id s.categories ≡ some c
      → refusal c.creator user (Permission.category_delete ∷ Permission.product_delete ∷ []) ≡ none
      → o.find_many (Option ℕ) (is_product_of o id) s.products ≡ []
      → (s' : CategoryTables o) × (delete_category o id user s ≡ (ok tt, s'))
        × ((j : ℕ)
            → o.find Category j s'.categories ≡ (
                if id == j
                then none
                else Option.map
                    (λ (x : Category).
                      if is_child_of o id x then record x { parent = c.parent } else x)
                    (o.find Category j s.categories)))
        × (s'.products ≡ s.products)
  unfolding delete_category
  delete_category_lem id c user s here granted free =
      let n = length (children id c s) in
      let body = delete_body o id c n in
      let (s', done, same) = delete_body-ok id c s n in
      (
        s',
        ground (arith, o.transaction-settle (CategoryTables o) CategoryError (Unit {0}) body s),
        λ j.
            subst
              (λ (x : Result CategoryError (Unit {0}) × CategoryTables o).
                o.find Category j x.1.categories ≡ left_of id c s j)
              done (delete_body-removed id c s j),
        same,
      )
