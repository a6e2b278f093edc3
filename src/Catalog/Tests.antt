-- ===== src/Catalog/Tests.antt =====
-- The theorems on the catalogue, applied to small tables.
use mathlib.Core.Option
use meeo_server.Base.{
  ℕ, ◌≡◌, refl, ◌⊎◌, Option, none, some, true, false, List, [], ◌∷◌, ◌==◌, if◌then◌else◌,
}
use meeo_server.Base.Result.{ok}
use meeo_server.Tables.{lists}
use meeo_server.Catalog.Slugs.{Text, Texts, slugify, matches_slug}
use meeo_server.Catalog.SlugShape.{slugify_lem, slugify-matches_slug}
use meeo_server.Catalog.Rows.{
  ProductStatus, Category, User, CategoryTables, CreateInput, UpdateInput, refusal,
}
use meeo_server.Catalog.Categories.{
  new_slug, candidate_slug, check_parent, parent_of, is_child_of, is_descendant_of, update_category,
  delete_category,
}
use meeo_server.Catalog.Ancestors.{Reaches, is_descendant_of_lem}
use meeo_server.Catalog.Updates.{IsForest}
use meeo_server.Catalog.Deletion.{delete_category_lem}
use meeo_server.Catalog.Requests.{CategoryRequest, answer_all, answer_all-IsForest}

abbrev plain_texts : Texts
plain_texts = record { to_lower_case = λ t. t; trim = λ t. t; normalize = λ t. t }

-- "a-b"
abbrev short_slug : Text
short_slug = 97 ∷ 45 ∷ 98 ∷ []

-- " a__ -b-"
abbrev long_text : Text
long_text = 32 ∷ 97 ∷ 95 ∷ 95 ∷ 32 ∷ 45 ∷ 98 ∷ 45 ∷ []

slugify_long : slugify plain_texts long_text ≡ short_slug
unfolding slugify
slugify_long = refl

slugify_lem_example :
    (slugify plain_texts long_text ≡ []) ⊎ (matches_slug (slugify plain_texts long_text) ≡ true)
slugify_lem_example = slugify_lem plain_texts long_text

slugify-matches_slug_example : slugify plain_texts short_slug ≡ short_slug
slugify-matches_slug_example = slugify-matches_slug plain_texts short_slug refl refl refl refl

abbrev row : Text → Option ℕ → Category
row slug parent = record {
  parent = parent;
  creator = some 9;
  name = slug;
  slug = slug;
  description = none;
  image_url = none;
  status = ProductStatus.active;
  sort_order = 0;
}

-- Three categories, each under the one before.
abbrev chain : CategoryTables lists
chain = record {
  categories =
      (1, row (97 ∷ []) none) ∷ (2, row (98 ∷ []) (some 1)) ∷ (3, row (99 ∷ []) (some 2)) ∷ [];
  products = (1, some 3) ∷ [];
}

-- A table that no request leaves: two categories above each other.
abbrev loop : List (ℕ × Category)
loop = (1, row (97 ∷ []) (some 2)) ∷ (2, row (98 ∷ []) (some 1)) ∷ []

is_descendant_of_lem_example :
    ((is_descendant_of lists 1 3 loop ≡ some true) × Reaches (parent_of lists loop) 1 3)
    ⊎ ((is_descendant_of lists 1 3 loop ≡ some false) × ¬ (Reaches (parent_of lists loop) 1 3))
is_descendant_of_lem_example = is_descendant_of_lem lists loop 3 1

abbrev owner : User
owner = record { id = 9; permissions = [] }

abbrev no_change : UpdateInput
no_change = record {
  name = none;
  slug = none;
  parent = none;
  description = none;
  image_url = none;
  status = none;
  sort_order = none;
}

abbrev new_row : Text → Option ℕ → CreateInput
new_row slug parent = record {
  name = slug;
  slug = none;
  parent = parent;
  description = none;
  image_url = none;
  status = ProductStatus.active;
  sort_order = 0;
}

-- The third would close a cycle, and throws.
abbrev requests : List CategoryRequest
requests =
    CategoryRequest.create (new_row (97 ∷ []) none) (some 9)
    ∷ CategoryRequest.create (new_row (98 ∷ []) (some 0)) (some 9)
    ∷ CategoryRequest.update 0 (record no_change { parent = some (some 1) }) (some owner)
    ∷ CategoryRequest.delete 0 (some owner)
    ∷ []

abbrev empty : CategoryTables lists
empty = record { categories = []; products = [] }

empty-IsForest : IsForest lists []
empty-IsForest = record {
  acyclic = λ k w e. cc;
  rooted = λ k w e. cc;
  unique = λ j k a b e1 e2 same. cc;
}

answer_all-IsForest_example :
    IsForest lists (answer_all lists plain_texts requests empty).categories
answer_all-IsForest_example = answer_all-IsForest lists plain_texts requests empty empty-IsForest

delete_category_lem_example :
    (s' : CategoryTables lists) × (delete_category lists 2 (some owner) chain ≡ (ok tt, s'))
    × ((j : ℕ)
        → lists.find Category j s'.categories ≡ (
            if 2 == j
            then none
            else Option.map
                (λ (x : Category).
                  if is_child_of lists 2 x then record x { parent = some 1 } else x)
                (lists.find Category j chain.categories)))
    × (s'.products ≡ chain.products)
unfolding refusal
delete_category_lem_example =
    delete_category_lem lists 2 (row (98 ∷ []) (some 1)) (some owner) chain refl refl refl

-- A name without letters or digits, given to an update, makes the slug empty.
empty_slug :
    update_category lists plain_texts 3
      (record no_change { name = some (42 ∷ []) })
      (some owner)
      chain
    ≡ (
      ok (3, record (row (99 ∷ []) (some 2)) { name = 42 ∷ []; slug = [] }),
      record chain {
        categories =
            (1, row (97 ∷ []) none)
            ∷ (2, row (98 ∷ []) (some 1))
            ∷ (3, record (row (99 ∷ []) (some 2)) { name = 42 ∷ []; slug = [] })
            ∷ [];
      },
    )
unfolding update_category refusal new_slug candidate_slug slugify check_parent
empty_slug = refl
