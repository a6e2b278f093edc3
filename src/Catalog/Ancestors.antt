-- ===== src/Catalog/Ancestors.antt =====
-- `isDescendantOf` (`src/modules/catalog/services/categoryHierarchy.service.ts`): its loop ends, and
-- what it decides.
use meeo_server.Base.{
  ℕ, zero, suc, ◌+◌, ◌≤◌, ◌<◌, ◌≡◌, refl, sym, subst, ◌⊎◌, inl, inr, Option, none, some, Bool, true,
  false, List, [], ◌∷◌, arith, length, ◌==◌, ==_iff, ==_refl, if◌then◌else◌, find_in, contains,
  Bool-cases, Option-cases,
}
use meeo_server.Orm.{Orm}
use meeo_server.Catalog.Rows.{Category}
use meeo_server.Catalog.Categories.{parent_of, climb, climb_fuel, is_descendant_of}

-- A chain of parents leads from one key to another.
pub data Reaches (p : ℕ → Option ℕ) : ℕ → ℕ → Type 0 where
  here : {a : ℕ} → Reaches p a a
  up : {a b c : ℕ} → p a ≡ some b → Reaches p b c → Reaches p a c

module _ {p : ℕ → Option ℕ} where
  pub Reaches-join : {a b c : ℕ} → Reaches p a b → Reaches p b c → Reaches p a c
  Reaches-join here r = r
  Reaches-join (up e q) r = up e (Reaches-join q r)

-- The listed rows that have not been visited.
abbrev unvisited : List ℕ → List (ℕ × Category) → ℕ
unvisited visited [] = 0
unvisited visited ((k, c) ∷ l) = (if contains k visited then 0 else 1) + unvisited visited l

visit-le :
    (k : ℕ) (visited : List ℕ) (l : List (ℕ × Category))
    → unvisited (k ∷ visited) l ≤ unvisited visited l
visit-le k visited [] = omega arith
visit-le k visited ((j, c) ∷ l) = ground (arith, visit-le k visited l)

visit-lt :
    (k : ℕ) (visited : List ℕ) (l : List (ℕ × Category)) (c : Category)
    → contains k visited ≡ false
    → find_in k l ≡ some c
    → unvisited (k ∷ visited) l < unvisited visited l
visit-lt k visited [] c new e = cc
visit-lt k visited ((j, x) ∷ l) c new e =
    ground (arith, visit-le k visited l, visit-lt k visited l c)

unvisited-length : (l : List (ℕ × Category)) → unvisited [] l ≡ length l
unvisited-length [] = refl
unvisited-length ((k, c) ∷ l) = ground (arith, unvisited-length l)

module _ (o : Orm) (t : o.Table Category) (ancestor start : ℕ) where
  abbrev rows : List (ℕ × Category)
  rows = o.find_many Category (λ c. true) t

  -- What the loop knows: the present key is on the chain from the start, no visited key is the
  -- ancestor, and the parent of a visited key is visited or present, as the start is.
  record Climbing (visited : List ℕ) (current : Option ℕ) : Type 0 where
    reached : (k : ℕ) → current ≡ some k → Reaches (parent_of o t) start k
    missed : (k : ℕ) → contains k visited ≡ true → (k == ancestor) ≡ false
    closed :
        (k w : ℕ)
        → contains k visited ≡ true
        → parent_of o t k ≡ some w
        → (contains w visited ≡ true) ⊎ (current ≡ some w)
    started : (contains start visited ≡ true) ⊎ (current ≡ some start)

  -- From a closed set of keys that has no ancestor, no chain leads to it.
  closed-miss :
      (visited : List ℕ)
      → ((k : ℕ) → contains k visited ≡ true → (k == ancestor) ≡ false)
      → ((k w : ℕ)
          → contains k visited ≡ true
          → parent_of o t k ≡ some w
          → contains w visited ≡ true)
      → (a b : ℕ) → Reaches (parent_of o t) a b
      → contains a visited ≡ true
      → (b == ancestor) ≡ false
  closed-miss visited missed closed a b here h = missed a h
  closed-miss visited missed closed a b (up {b = w} e r) h =
      closed-miss visited missed closed w b r (closed a w h e)

  abbrev Decides : Option Bool → Type 0
  Decides none = ⊥
  Decides (some true) = Reaches (parent_of o t) start ancestor
  Decides (some false) = ¬ (Reaches (parent_of o t) start ancestor)

  not_reached :
      (visited : List ℕ) (current : Option ℕ)
      → Climbing visited current
      → ((k : ℕ) → current ≡ some k → contains k visited ≡ true)
      → ¬ (Reaches (parent_of o t) start ancestor)
  not_reached visited current c seen r =
      let in_set = λ (w : ℕ) (h : (contains w visited ≡ true) ⊎ (current ≡ some w)).
        elim h as (λ _. contains w visited ≡ true) [ inl a ↦ a | inr e ↦ seen w e ] in
      let miss =
        closed-miss visited c.missed (λ k w h e. in_set w (c.closed k w h e)) start ancestor r
          (in_set start c.started) in
      ground (arith, ==_refl ancestor)

  step :
      (visited : List ℕ) (k : ℕ)
      → (k == ancestor) ≡ false
      → Climbing visited (some k)
      → Climbing (k ∷ visited) (parent_of o t k)
  step visited k other c = record {
    reached = λ w e. Reaches-join (c.reached k refl) (Reaches.up e Reaches.here);
    missed = λ w h. ground (arith, c.missed w);
    closed = λ w x h e. ground (arith, c.closed w x);
    started = ground (arith, c.started);
  }

  less :
      (k fuel : ℕ) (visited : List ℕ)
      → contains k visited ≡ false
      → (unvisited visited rows + 1 < suc fuel) ⊎ (some k ≡ none)
      → (unvisited (k ∷ visited) rows + 1 < fuel) ⊎ (parent_of o t k ≡ none)
  less k fuel visited new enough = elim (Option-cases (o.find Category k t)) [
    | inl gone ↦ inr (ground arith)
    | inr (r, found) ↦
        let listed : find_in k rows ≡ some r =
          ground (arith, o.find_in-find_many Category (λ c. true) k t) in
        inl (ground (arith, visit-lt k visited rows r new listed))
  ]

  module _ (fuel : ℕ) (visited : List ℕ) (k : ℕ) where
    climb-hit : (k == ancestor) ≡ true → climb o t ancestor (suc fuel) visited (some k) ≡ some true
    unfolding climb
    climb-hit e = ground arith

    climb-seen :
        (k == ancestor) ≡ false
        → contains k visited ≡ true
        → climb o t ancestor (suc fuel) visited (some k) ≡ some false
    unfolding climb
    climb-seen e seen = ground arith

    climb-up :
        (k == ancestor) ≡ false
        → contains k visited ≡ false
        → climb o t ancestor (suc fuel) visited (some k)
          ≡ climb o t ancestor fuel (k ∷ visited) (parent_of o t k)
    unfolding climb
    climb-up e new = ground arith

  climb_lem :
      (fuel : ℕ) (visited : List ℕ) (current : Option ℕ)
      → Climbing visited current
      → (unvisited visited rows + 1 < fuel) ⊎ (current ≡ none)
      → Decides (climb o t ancestor fuel visited current)
  unfolding climb
  climb_lem fuel visited none c enough = not_reached visited none c (λ k e. cc)
  climb_lem zero visited (some k) c enough = ground arith
  climb_lem (suc fuel) visited (some k) c enough = elim (Bool-cases (k == ancestor)) [
    | inl e ↦
        subst Decides (sym (climb-hit fuel visited k e))
          (subst (Reaches (parent_of o t) start) ((==_iff k ancestor).0 e) (c.reached k refl))
    | inr e ↦ elim (Bool-cases (contains k visited)) [
      | inl seen ↦
          subst Decides (sym (climb-seen fuel visited k e seen))
            (not_reached visited (some k) c (λ w h. ground arith))
      | inr new ↦ subst Decides (sym (climb-up fuel visited k e new)) (
          climb_lem fuel (k ∷ visited) (parent_of o t k) (step visited k e c)
            (less k fuel visited new enough))
    ]
  ]

  start-Climbing : Climbing [] (some start)
  start-Climbing = record {
    reached =
        λ k e. let same : start ≡ k = cc in subst (Reaches (parent_of o t) start) same Reaches.here;
    missed = λ k h. cc;
    closed = λ k w h. cc;
    started = inr refl;
  }

  -- The loop of `isDescendantOf` ends for every table of categories, also for one with a cycle. It
  -- returns whether a chain of parents leads from the one category to the other.
  pub is_descendant_of_lem :
      ((is_descendant_of o start ancestor t ≡ some true) × Reaches (parent_of o t) start ancestor)
      ⊎ ((is_descendant_of o start ancestor t ≡ some false)
          × ¬ (Reaches (parent_of o t) start ancestor))
  unfolding is_descendant_of
  is_descendant_of_lem = go (is_descendant_of o start ancestor t) refl (
      climb_lem (climb_fuel o t) [] (some start) start-Climbing
        (inl (ground (arith, unvisited-length rows))))
    where
      go :
          (r : Option Bool)
          → is_descendant_of o start ancestor t ≡ r
          → Decides r
          → ((is_descendant_of o start ancestor t ≡ some true)
              × Reaches (parent_of o t) start ancestor)
            ⊎ ((is_descendant_of o start ancestor t ≡ some false)
                × ¬ (Reaches (parent_of o t) start ancestor))
      go none e d = elim d [ ]
      go (some true) e d = inl (e, d)
      go (some false) e d = inr (e, d)
