-- ===== src/Inventory/Pool.antt =====
-- What the stock of one variant promises, with no table, no status and no clock: units that are free
-- and units that are held, which move between each other and leave. Both are natural numbers, so that
-- a unit can be neither sold nor held twice.
use meeo_server.Base.{ℕ, ◌+◌, ◌≡◌, Option, none, some}

pub record Pool : Type 0 where
  pub free : ℕ
  pub held : ℕ

-- What can happen to a pool, with the number of units.
pub data Kind : Type 0 where
  established restocked written_off audited held freed sold : ℕ → Kind

-- One act on a pool, which may not be there yet.
pub data Act : Kind → Option Pool → Option Pool → Type 0 where
  -- a pool with free units only
  establish : {n : ℕ} {p : Pool} → p.free ≡ n → p.held ≡ 0 → Act (Kind.established n) none (some p)
  -- free units arrive
  restock :
      {n : ℕ} {p p' : Pool}
      → p'.free ≡ p.free + n
      → p'.held ≡ p.held
      → Act (Kind.restocked n) (some p) (some p')
  -- free units leave
  write_off :
      {n : ℕ} {p p' : Pool}
      → p'.free + n ≡ p.free
      → p'.held ≡ p.held
      → Act (Kind.written_off n) (some p) (some p')
  -- the free units are counted anew
  audit :
      {n : ℕ} {p p' : Pool}
      → p'.free ≡ n
      → p'.held ≡ p.held
      → Act (Kind.audited n) (some p) (some p')
  -- free units are held
  hold :
      {n : ℕ} {p p' : Pool}
      → p'.free + n ≡ p.free
      → p'.held ≡ p.held + n
      → Act (Kind.held n) (some p) (some p')
  -- held units are freed
  release :
      {n : ℕ} {p p' : Pool}
      → p'.free ≡ p.free + n
      → p'.held + n ≡ p.held
      → Act (Kind.freed n) (some p) (some p')
  -- held units are sold
  sell :
      {n : ℕ} {p p' : Pool}
      → p'.free ≡ p.free
      → p'.held + n ≡ p.held
      → Act (Kind.sold n) (some p) (some p')

-- Some acts, one after another, each of an allowed kind.
pub data Run (allowed : Kind → Type 0) : Option Pool → Option Pool → Type 0 where
  done : {x : Option Pool} → Run allowed x x
  next :
      {k : Kind} {x y z : Option Pool} → allowed k → Act k x y → Run allowed y z → Run allowed x z

pub Run-append :
    {allowed : Kind → Type 0} {x y z : Option Pool}
    → Run allowed x y
    → Run allowed y z
    → Run allowed x z
Run-append Run.done r = r
Run-append (Run.next p a q) r = Run.next p a (Run-append q r)
