-- ===== src/Catalog/Requests.antt =====
-- `createCategory`, `updateCategory` and `deleteCategory` (`category.service.ts` of
-- `src/modules/catalog/services`) as requests that arrive in any order.
use meeo_server.Base.{
  ℕ, ◌≡◌, sym, ◌∙◌, subst, inl, inr, Option, some, List, [], ◌∷◌, arith, Bool-cases, Option-cases,
}
use meeo_server.Orm.{Orm}
use meeo_server.Catalog.Slugs.{Texts, slugify}
use meeo_server.Catalog.Rows.{
  Category, CategoryTables, User, Permission, CreateInput, UpdateInput, refusal, text_or, is_empty,
}
use meeo_server.Catalog.Categories.{
  parent_of, by_slug, updated, candidate_slug, create_category, update_category, delete_category,
}
use meeo_server.Catalog.Ancestors.{Reaches}
use meeo_server.Catalog.Updates.{IsStored, IsAllowed, IsForest, Reaches-IsStored, write-IsForest}
use meeo_server.Catalog.Checks.{
  none_with_slug, new_slug_lem, check_new_parent_lem, check_parent_lem,
}
use meeo_server.Catalog.Deletion.{delete_category-IsForest}

pub data CategoryRequest : Type 0 where
  create : CreateInput → Option ℕ → CategoryRequest
  update : ℕ → UpdateInput → Option User → CategoryRequest
  delete : ℕ → Option User → CategoryRequest

module _ (o : Orm) where
  -- Nothing leads to a key with no row, from one with a row.
  fresh-IsAllowed :
      (parent : Option ℕ) (s : CategoryTables o)
      → IsForest o s.categories
      → ((w : ℕ) → parent ≡ some w → IsStored o w s.categories)
      → IsAllowed o (o.fresh Category s.categories) parent s.categories
  fresh-IsAllowed parent s f stored w e =
      let k = o.fresh Category s.categories in
      inr (
        stored w e,
        λ (r : Reaches (parent_of o s.categories) w k).
            let (c, there) = Reaches-IsStored o s.categories f r (stored w e) in
            absurd (ground (arith, o.find-fresh Category s.categories)),
      )

  pub create_category-IsForest :
      (js : Texts) (input : CreateInput) (creator : Option ℕ) (s : CategoryTables o)
      → IsForest o s.categories
      → IsForest o (create_category o js input creator s).1.categories
  unfolding create_category
  create_category-IsForest js input creator s f =
      let slug = text_or input.slug (slugify js input.name) in
      let k = o.fresh Category s.categories in
      elim (Bool-cases (is_empty slug)) [
        | inl empty ↦ ground arith
        | inr given ↦ elim (Option-cases (by_slug o slug s)) [
          | inr (x, taken) ↦ ground arith
          | inl free ↦ elim (check_new_parent_lem o 0 s input.parent) [
            | inl (e, thrown) ↦ ground arith
            | inr (passed, stored) ↦
                let row : Category = record {
                  parent = input.parent;
                  creator = creator;
                  name = input.name;
                  slug = slug;
                  description = input.description;
                  image_url = input.image_url;
                  status = input.status;
                  sort_order = input.sort_order;
                } in
                let after : (create_category o js input creator s).1.categories
                    ≡ o.write Category k row s.categories =
                  ground arith in
                subst (IsForest o) (sym after) (
                  write-IsForest o k row s.categories f (fresh-IsAllowed input.parent s f stored)
                    (λ j a at same. absurd (none_with_slug o 0 s slug free j a at same)))
          ]
        ]
      ]

  pub update_category-IsForest :
      (js : Texts) (id : ℕ) (input : UpdateInput) (user : Option User) (s : CategoryTables o)
      → IsForest o s.categories
      → IsForest o (update_category o js id input user s).1.categories
  unfolding update_category
  update_category-IsForest js id input user s f =
      elim (Option-cases (o.find Category id s.categories)) [
        | inl gone ↦ ground arith
        | inr (c, here) ↦
            let rights = Permission.category_update ∷ Permission.product_update ∷ [] in
            elim (Option-cases (refusal c.creator user rights)) [
              | inr (e, refused) ↦ ground arith
              | inl granted ↦ elim (new_slug_lem o id s (candidate_slug o js input c) c here) [
                | inl (e, thrown) ↦ ground arith
                | inr (slug, chosen, alone) ↦ elim (check_parent_lem o id s input.parent c here) [
                  | inl (e, thrown) ↦ ground arith
                  | inr (passed, allowed) ↦
                      let row = updated o input slug c in
                      let after : (update_category o js id input user s).1.categories
                          ≡ o.write Category id row s.categories =
                        ground arith in
                      subst (IsForest o) (sym after) (
                        write-IsForest o id row s.categories f allowed (λ j a at same. elim alone [
                          | inl kept ↦ f.unique j id a c at here (same ∙ kept)
                          | inr single ↦ single j a at same
                        ]))
                ]
              ]
            ]
      ]

  -- The tables after a request, whether it returned or threw.
  abbrev pub answer : Texts → CategoryRequest → CategoryTables o → CategoryTables o
  answer js (CategoryRequest.create input creator) s = (create_category o js input creator s).1
  answer js (CategoryRequest.update id input user) s = (update_category o js id input user s).1
  answer js (CategoryRequest.delete id user) s = (delete_category o id user s).1

  abbrev pub answer_all : Texts → List CategoryRequest → CategoryTables o → CategoryTables o
  answer_all js [] s = s
  answer_all js (r ∷ rs) s = answer_all js rs (answer js r s)

  -- Whatever a text is lowered and normalized to, every sequence of creations, updates and deletions
  -- of categories, of which any may throw, keeps the table a forest: no category is above itself,
  -- every parent is stored, and no two categories share a slug.
  pub answer_all-IsForest :
      (js : Texts) (rs : List CategoryRequest) (s : CategoryTables o)
      → IsForest o s.categories
      → IsForest o (answer_all js rs s).categories
  answer_all-IsForest js [] s f = f
  answer_all-IsForest js (CategoryRequest.create input creator ∷ rs) s f =
      answer_all-IsForest js rs _ (create_category-IsForest js input creator s f)
  answer_all-IsForest js (CategoryRequest.update id input user ∷ rs) s f =
      answer_all-IsForest js rs _ (update_category-IsForest js id input user s f)
  answer_all-IsForest js (CategoryRequest.delete id user ∷ rs) s f =
      answer_all-IsForest js rs _ (delete_category-IsForest o id user s f)
