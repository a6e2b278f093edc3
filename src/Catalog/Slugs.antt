-- ===== src/Catalog/Slugs.antt =====
-- `slugify` (`src/modules/catalog/utils/slug.util.ts`) and the pattern of a slug
-- (`src/modules/catalog/validations/category.validation.ts`). A text is the list of its UTF-16 code
-- units. Lower case, trimming and normal form belong to the language, and are a parameter.
use meeo_server.Base.{
  ℕ, Bool, true, false, not, ◌&&◌, ◌||◌, List, [], ◌∷◌, ◌==◌, leb, if◌then◌else◌,
}

abbrev pub Text : Type 0
Text = List ℕ

abbrev pub same_text : Text → Text → Bool
same_text [] [] = true
same_text [] (y ∷ b) = false
same_text (x ∷ a) [] = false
same_text (x ∷ a) (y ∷ b) = (x == y) && same_text a b

abbrev pub hyphen : ℕ
hyphen = 45

-- `[a-z0-9]`
abbrev pub is_alphanumeric : ℕ → Bool
is_alphanumeric c = (leb 97 c && leb c 122) || (leb 48 c && leb c 57)

-- `\s`
abbrev pub is_space : ℕ → Bool
is_space c =
    (leb 9 c && leb c 13)
    || (c == 32)
    || (c == 160)
    || (c == 5760)
    || (leb 8192 c && leb c 8202)
    || (c == 8232)
    || (c == 8233)
    || (c == 8239)
    || (c == 8287)
    || (c == 12288)
    || (c == 65279)

-- `replace(/[…]/g, "")`: the code units that pass a test.
abbrev pub retain : (ℕ → Bool) → Text → Text
retain p [] = []
retain p (c ∷ t) = if p c then c ∷ retain p t else retain p t

-- `replace(/[…]+/g, "-")`: each run of code units that pass a test becomes one hyphen; `inside` says
-- whether the run has begun.
abbrev pub hyphenate : (ℕ → Bool) → Bool → Text → Text
hyphenate p inside [] = []
hyphenate p true (c ∷ t) =
    let out = c ∷ hyphenate p false t in let skip = hyphenate p true t in if p c then skip else out
hyphenate p false (c ∷ t) =
    let out = c ∷ hyphenate p false t in
    let run = hyphen ∷ hyphenate p true t in if p c then run else out

-- `replace(/^-+/, "")`
abbrev pub trim_start : Text → Text
trim_start [] = []
trim_start (c ∷ t) = if c == hyphen then trim_start t else c ∷ t

-- `replace(/-+$/, "")`
abbrev pub trim_end : Text → Text
trim_end [] = []
trim_end (c ∷ t) = elim (trim_end t) [ [] ↦ if c == hyphen then [] else c ∷ [] | d ∷ r ↦ c ∷ d ∷ r ]

-- What a slug may hold before its spaces are replaced.
abbrev pub is_kept : ℕ → Bool
is_kept c = is_alphanumeric c || is_space c || (c == hyphen)

abbrev pub is_diacritic : ℕ → Bool
is_diacritic c = leb 768 c && leb c 879

abbrev pub is_gap : ℕ → Bool
is_gap c = is_space c || (c == 95)

abbrev pub is_hyphen : ℕ → Bool
is_hyphen c = c == hyphen

-- What the language does to a text: `toLowerCase`, `trim` and `normalize("NFD")`.
pub record Texts : Type 0 where
  pub to_lower_case : Text → Text
  pub trim : Text → Text
  pub normalize : Text → Text

unfoldable pub slugify : Texts → Text → Text
slugify js text =
    let marked = js.normalize (js.trim (js.to_lower_case text)) in
    let plain = retain is_kept (retain (λ c. not (is_diacritic c)) marked) in
    trim_end (trim_start (hyphenate is_hyphen false (hyphenate is_gap false plain)))

-- `slugRegex`: groups of alphanumerics with one hyphen between two groups. `open` says whether the
-- text may end here, which it may after an alphanumeric only.
abbrev pub matches_slug_from : Bool → Text → Bool
matches_slug_from open_group [] = open_group
matches_slug_from open_group (c ∷ t) =
    let word = matches_slug_from true t in
    let gap = matches_slug_from false t in
    if is_alphanumeric c then word else (c == hyphen) && open_group && gap

abbrev pub matches_slug : Text → Bool
matches_slug t = matches_slug_from false t
