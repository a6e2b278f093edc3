-- ===== src/Catalog/Rows.antt =====
-- Rows of `prisma/schema/Catalog`, the inputs that `category.validation.ts` admits, and who may
-- change a row (`catalog-auth.helper.ts`), of `src/modules/catalog`. A product is kept by its
-- category alone, which is what the services here read of it.
use meeo_server.Base.{ℕ, ◌+◌, Option, none, some, Bool, true, false, ◌||◌, List, [], ◌∷◌, ◌==◌}
use meeo_server.Base.Result.{Action}
use meeo_server.Orm.{Orm}
use meeo_server.Catalog.Slugs.{Text}

pub data ProductStatus : Type 0 where
  draft active inactive archived : ProductStatus

pub record Category : Type 0 where
  pub parent : Option ℕ
  pub creator : Option ℕ
  pub name : Text
  pub slug : Text
  pub description : Option Text
  pub image_url : Option Text
  pub status : ProductStatus
  pub sort_order : ℕ

pub data Permission : Type 0 where
  system_manage category_update category_delete product_update product_delete : Permission
  other : ℕ → Permission

abbrev pub permission_rank : Permission → ℕ
permission_rank Permission.system_manage = 0
permission_rank Permission.category_update = 1
permission_rank Permission.category_delete = 2
permission_rank Permission.product_update = 3
permission_rank Permission.product_delete = 4
permission_rank (Permission.other n) = 5 + n

abbrev pub has_permission : Permission → List Permission → Bool
has_permission p [] = false
has_permission p (x ∷ xs) = (permission_rank x == permission_rank p) || has_permission p xs

abbrev pub has_any : List Permission → List Permission → Bool
has_any [] granted = false
has_any (p ∷ required) granted = has_permission p granted || has_any required granted

pub record User : Type 0 where
  pub id : ℕ
  pub permissions : List Permission

pub data CategoryError : Type 0 where
  no_slug slug_taken parent_not_found category_not_found own_parent circular : CategoryError
  has_products unauthenticated forbidden unfinished : CategoryError

pub record CategoryTables (o : Orm) : Type 0 where
  pub categories : o.Table Category
  pub products : o.Table (Option ℕ)

abbrev pub CategoryService : Orm → Type 0 → Type 0
CategoryService o A = Action (CategoryTables o) CategoryError A

-- What `createCategorySchema` and `updateCategorySchema` admit; a field of an update may be absent,
-- and a nullable one absent, null or given.
pub record CreateInput : Type 0 where
  pub name : Text
  pub slug : Option Text
  pub parent : Option ℕ
  pub description : Option Text
  pub image_url : Option Text
  pub status : ProductStatus
  pub sort_order : ℕ

pub record UpdateInput : Type 0 where
  pub name : Option Text
  pub slug : Option Text
  pub parent : Option (Option ℕ)
  pub description : Option (Option Text)
  pub image_url : Option (Option Text)
  pub status : Option ProductStatus
  pub sort_order : Option ℕ

abbrev pub is_empty : Text → Bool
is_empty [] = true
is_empty (c ∷ t) = false

-- `given || computed`, where an empty text counts as absent.
abbrev pub text_or : Option Text → Text → Text
text_or none d = d
text_or (some []) d = d
text_or (some (c ∷ t)) d = c ∷ t

abbrev pub given_or : {A : Type 0} → Option A → A → A
given_or none d = d
given_or (some a) d = a

abbrev pub same_parent : Option ℕ → Option ℕ → Bool
same_parent none none = true
same_parent none (some b) = false
same_parent (some a) none = false
same_parent (some a) (some b) = a == b

-- `verifyCatalogOwnershipOrPermission`: the error it throws, if it throws.
unfoldable pub refusal : Option ℕ → Option User → List Permission → Option CategoryError
refusal creator none required = some CategoryError.unauthenticated
refusal creator (some user) required =
    let own : Bool = elim creator [ none ↦ false | some c ↦ user.id == c ] in
    elim (has_permission Permission.system_manage user.permissions
      || own
      || has_any required user.permissions) [ true ↦ none | false ↦ some CategoryError.forbidden ]
