-- ===== src/Catalog/SlugShape.antt =====
-- What `slugify` (`src/modules/catalog/utils/slug.util.ts`) returns.
use meeo_server.Base.{
  ℕ, ◌≡◌, refl, ◌⊎◌, inl, inr, Bool, true, false, not, ◌||◌, [], ◌∷◌, arith, All, ◌==◌, Bool-cases,
}
use meeo_server.Catalog.Slugs.{
  Text, hyphen, is_alphanumeric, retain, hyphenate, trim_start, trim_end, is_kept, is_diacritic,
  is_gap, is_hyphen, Texts, slugify, matches_slug_from, matches_slug,
}

-- Every code unit is alphanumeric or a hyphen.
abbrev IsPlain : Text → Type 0
IsPlain t = All (λ c. (is_alphanumeric c || is_hyphen c) ≡ true) t

retain-All : (p : ℕ → Bool) (t : Text) → All (λ c. p c ≡ true) (retain p t)
retain-All p [] = tt
retain-All p (c ∷ t) = ground (arith, retain-All p t)

hyphenate_gap-IsPlain :
    (inside : Bool) (t : Text) → All (λ c. is_kept c ≡ true) t → IsPlain (hyphenate is_gap inside t)
hyphenate_gap-IsPlain inside [] h = tt
hyphenate_gap-IsPlain true (c ∷ t) (h, hs) =
    ground (arith, hyphenate_gap-IsPlain true t hs, hyphenate_gap-IsPlain false t hs)
hyphenate_gap-IsPlain false (c ∷ t) (h, hs) =
    ground (arith, hyphenate_gap-IsPlain true t hs, hyphenate_gap-IsPlain false t hs)

-- No two hyphens are neighbours, and if a hyphen stands before the text, none begins it.
abbrev IsSingle : Bool → Text → Type 0
IsSingle before [] = Unit
IsSingle true (c ∷ t) = (is_alphanumeric c ≡ true) × IsSingle false t
IsSingle false (c ∷ t) = ((is_alphanumeric c || is_hyphen c) ≡ true) × IsSingle (is_hyphen c) t

hyphenate-IsSingle :
    (inside : Bool) (t : Text) → IsPlain t → IsSingle inside (hyphenate is_hyphen inside t)
hyphenate-IsSingle inside [] h = tt
hyphenate-IsSingle true (c ∷ t) (h, hs) =
    ground (arith, hyphenate-IsSingle true t hs, hyphenate-IsSingle false t hs)
hyphenate-IsSingle false (c ∷ t) (h, hs) =
    ground (arith, hyphenate-IsSingle true t hs, hyphenate-IsSingle false t hs)

trim_start-IsSingle : (t : Text) → IsSingle true t → trim_start t ≡ t
trim_start-IsSingle [] h = refl
trim_start-IsSingle (c ∷ t) h = ground arith

trim_start-IsSingle' : (t : Text) → IsSingle false t → IsSingle true (trim_start t)
trim_start-IsSingle' [] h = tt
trim_start-IsSingle' (c ∷ t) h = elim (Bool-cases (c == hyphen)) [
  | inl e ↦ let tail : IsSingle true t = ground arith in rw e (rw (trim_start-IsSingle t tail) tail)
  | inr e ↦ rw e (ground arith)
]

abbrev IsSlugTail : Text → Type 0
IsSlugTail t = (t ≡ []) ⊎ (matches_slug_from false t ≡ true)

word :
    (c : ℕ) (t : Text)
    → is_alphanumeric c ≡ true
    → (x : Text) → trim_end t ≡ x
    → matches_slug_from true x ≡ true
    → matches_slug_from false (trim_end (c ∷ t)) ≡ true
word c t a [] e h = ground arith
word c t a (d ∷ r) e h = ground arith

gap :
    (c : ℕ) (t : Text)
    → (c == hyphen) ≡ true
    → (x : Text) → trim_end t ≡ x
    → IsSlugTail x
    → matches_slug_from true (trim_end (c ∷ t)) ≡ true
gap c t a [] e h = ground arith
gap c t a (d ∷ r) e h = ground arith

trim_end_lem :
    (t : Text)
    → (IsSingle true t → IsSlugTail (trim_end t))
      × (IsSingle false t → matches_slug_from true (trim_end t) ≡ true)
trim_end_lem [] = (λ h. inl refl, λ h. refl)
trim_end_lem (c ∷ t) =
    let (starts, inside) = trim_end_lem t in
    let at_word = λ (a : is_alphanumeric c ≡ true) (h : IsSingle false t).
      word c t a (trim_end t) refl (inside h) in
    (
      λ h. inr (at_word h.0 h.1),
      λ h. elim (Bool-cases (c == hyphen)) [
        | inl e ↦ gap c t e (trim_end t) refl (starts (ground arith))
        | inr e ↦ ground (arith, at_word (ground arith) (ground arith))
      ],
    )

-- Whatever a text is lowered, trimmed and normalized to, its slug is empty or passes the pattern
-- that the request schemas ask of a slug.
pub slugify_lem :
    (js : Texts) (text : Text) → (slugify js text ≡ []) ⊎ (matches_slug (slugify js text) ≡ true)
unfolding slugify
slugify_lem js text =
    let plain =
      retain is_kept
        (retain (λ c. not (is_diacritic c)) (js.normalize (js.trim (js.to_lower_case text)))) in
    let gapless = hyphenate is_gap false plain in
    let single = hyphenate-IsSingle false gapless (
      hyphenate_gap-IsPlain false plain (
        retain-All is_kept
          (retain (λ c. not (is_diacritic c)) (js.normalize (js.trim (js.to_lower_case text)))))) in
    (trim_end_lem (trim_start (hyphenate is_hyphen false gapless))).0
      (trim_start-IsSingle' (hyphenate is_hyphen false gapless) single)

retain-same : (p : ℕ → Bool) (t : Text) → All (λ c. p c ≡ true) t → retain p t ≡ t
retain-same p [] h = refl
retain-same p (c ∷ t) h = ground (arith, retain-same p t)

slug-IsPlain : (b : Bool) (t : Text) → matches_slug_from b t ≡ true → IsPlain t
slug-IsPlain b [] h = tt
slug-IsPlain b (c ∷ t) h = ground (arith, slug-IsPlain true t, slug-IsPlain false t)

plain-kept : (t : Text) → IsPlain t → All (λ c. is_kept c ≡ true) t
plain-kept [] h = tt
plain-kept (c ∷ t) h = ground (arith, plain-kept t)

plain-unmarked : (t : Text) → IsPlain t → All (λ c. not (is_diacritic c) ≡ true) t
plain-unmarked [] h = tt
plain-unmarked (c ∷ t) h = ground (arith, plain-unmarked t)

hyphenate_gap-same : (t : Text) → IsPlain t → hyphenate is_gap false t ≡ t
hyphenate_gap-same [] h = refl
hyphenate_gap-same (c ∷ t) h = ground (arith, hyphenate_gap-same t)

hyphenate-same :
    (b : Bool) (t : Text) → matches_slug_from b t ≡ true → hyphenate is_hyphen (not b) t ≡ t
hyphenate-same b [] h = refl
hyphenate-same true (c ∷ t) h = ground (arith, hyphenate-same true t, hyphenate-same false t)
hyphenate-same false (c ∷ t) h = ground (arith, hyphenate-same true t)

trim_start-same : (t : Text) → matches_slug t ≡ true → trim_start t ≡ t
trim_start-same [] h = refl
trim_start-same (c ∷ t) h = ground arith

trim_end-same : (b : Bool) (t : Text) → matches_slug_from b t ≡ true → trim_end t ≡ t
trim_end-same b [] h = refl
trim_end-same b (c ∷ []) h = ground arith
trim_end-same b (c ∷ d ∷ t) h =
    ground (arith, trim_end-same true (d ∷ t), trim_end-same false (d ∷ t))

begins : (t : Text) → matches_slug t ≡ true → hyphenate is_hyphen false t ≡ t
begins [] h = refl
begins (c ∷ t) h = ground (arith, hyphenate-same true t)

-- The slug of a text that passes the pattern of slugs, and that lower case, trimming and normal form
-- leave alone, is the text itself.
pub slugify-matches_slug :
    (js : Texts) (t : Text)
    → js.to_lower_case t ≡ t
    → js.trim t ≡ t
    → js.normalize t ≡ t
    → matches_slug t ≡ true
    → slugify js t ≡ t
unfolding slugify
slugify-matches_slug js t lower trimmed normal h =
    let plain = slug-IsPlain false t h in
    rw
      (
        lower,
        trimmed,
        normal,
        retain-same (λ c. not (is_diacritic c)) t (plain-unmarked t plain),
        retain-same is_kept t (plain-kept t plain),
        hyphenate_gap-same t plain,
      )
      (ground (arith, begins t h, trim_start-same t, trim_end-same false t))
