-- ===== src/Inventory/Chains.antt =====
-- Which acts on a variant's pool each request of the inventory services may do, and the sequences of
-- requests as chains of runs of such acts.
use meeo_server.Base.{ℕ, ◌≡◌, ◌⊎◌, Option, List, [], ◌∷◌}
use meeo_server.Inventory.OrderHolds.{Requirement}
use meeo_server.Inventory.Requests.{Request}
use meeo_server.Inventory.Pool.{Pool, Kind, Run}

-- An item of the list asks for that quantity of the variant.
abbrev pub Lists : ℕ → ℕ → List Requirement → Type 0
Lists v n [] = ⊥
Lists v n (item ∷ items) = ((v ≡ item.variant) × (n ≡ item.quantity)) ⊎ Lists v n items

abbrev pub Allows : Request → ℕ → Kind → Type 0
Allows (Request.get w) v (Kind.established n) = (v ≡ w) × (n ≡ 0)
Allows (Request.add w q reference) v (Kind.established n) = (v ≡ w) × (n ≡ q)
Allows (Request.add w q reference) v (Kind.restocked n) = (v ≡ w) × (n ≡ q)
Allows (Request.remove w q reference) v (Kind.written_off n) = (v ≡ w) × (n ≡ q)
Allows (Request.adjust w a) v (Kind.audited n) = v ≡ w
Allows (Request.reserve now w q order minutes) v (Kind.held n) = (v ≡ w) × (n ≡ q)
Allows (Request.confirm now id order) v (Kind.sold n) = Unit
Allows (Request.release id) v (Kind.freed n) = Unit
Allows (Request.expire now) v (Kind.freed n) = Unit
Allows (Request.reserve_order t order items) v (Kind.held n) = Lists v n items
Allows (Request.release_order order) v (Kind.freed n) = Unit
Allows (Request.commit_order order) v (Kind.sold n) = Unit
Allows _ _ _ = ⊥

-- A run for each request, of acts it allows for the variant.
pub data Chain (v : ℕ) : List Request → Option Pool → Option Pool → Type 0 where
  done : {x : Option Pool} → Chain v [] x x
  next :
      {r : Request} {rs : List Request} {x y z : Option Pool}
      → Run (Allows r v) x y
      → Chain v rs y z
      → Chain v (r ∷ rs) x z
