-- ===== src/Coupons/Rules.antt =====
-- The rows of `prisma/schema/coupon`, and the tests and sums on them that the two coupon services
-- write out alike. Amounts are in hundredths; the value of a percentage is in hundredths of a
-- percent. A code stands for the trimmed, upper-cased text, the unique key of its coupon.
use meeo_server.Base.{
  ℕ, ◌+◌, ◌/◌, Option, none, some, Bool, true, false, not, ◌&&◌, length, ◌==◌, ltb, leb,
}
use meeo_server.Base.Result.{Action}
use meeo_server.Orm.{Orm}

pub data CouponStatus : Type 0 where
  active inactive expired : CouponStatus

abbrev pub is_active_coupon : CouponStatus → Bool
is_active_coupon CouponStatus.active = true
is_active_coupon CouponStatus.inactive = false
is_active_coupon CouponStatus.expired = false

pub data CouponKind : Type 0 where
  percentage fixed_amount free_shipping : CouponKind

pub record Coupon : Type 0 where
  pub kind : CouponKind
  pub value : ℕ
  pub minimum_order_amount : Option ℕ
  pub maximum_discount_amount : Option ℕ
  pub usage_limit : Option ℕ
  pub usage_limit_per_user : Option ℕ
  pub starts_at : Option ℕ
  pub expires_at : Option ℕ
  pub status : CouponStatus

pub record Usage : Type 0 where
  pub coupon : ℕ
  pub order : ℕ
  pub user : Option ℕ
  pub discount : ℕ

-- The refusals of the two services.
pub data CouponError : Type 0 where
  not_found inactive not_started expired usage_limit_reached below_minimum : CouponError
  user_limit_reached : CouponError

pub record CouponTables (o : Orm) : Type 0 where
  pub coupons : o.Table Coupon
  pub usages : o.Table Usage

abbrev pub CouponService : Orm → Type 0 → Type 0
CouponService o A = Action (CouponTables o) CouponError A

-- `coupon.startsAt && coupon.startsAt > now`
abbrev pub starts_later : ℕ → Option ℕ → Bool
starts_later now none = false
starts_later now (some t) = ltb now t

-- `coupon.expiresAt && coupon.expiresAt < now`
abbrev pub has_expired : ℕ → Option ℕ → Bool
has_expired now none = false
has_expired now (some t) = ltb t now

-- `limit && count >= limit`, where a limit of 0 is none.
abbrev pub is_used_up : Option ℕ → ℕ → Bool
is_used_up none n = false
is_used_up (some l) n = not (l == 0) && leb l n

abbrev pub is_below : Option ℕ → ℕ → Bool
is_below none subtotal = false
is_below (some m) subtotal = ltb subtotal m

abbrev pub is_usage_of : ℕ → Usage → Bool
is_usage_of k u = u.coupon == k

abbrev pub is_usage_by : ℕ → ℕ → Usage → Bool
is_usage_by k user u = u.coupon == k && elim u.user [ none ↦ false | some w ↦ w == user ]

-- `Number(x.toFixed(2))`, of an exact sum in ten-thousandths of a hundredth.
abbrev pub to_fixed : ℕ → ℕ
to_fixed x = (x + 5000) / 10_000

module _ (o : Orm) where
  abbrev pub count_usages : ℕ → CouponTables o → ℕ
  count_usages k s = length (o.find_many Usage (is_usage_of k) s.usages)

  abbrev pub count_usages_by : ℕ → ℕ → CouponTables o → ℕ
  count_usages_by k user s = length (o.find_many Usage (is_usage_by k user) s.usages)

  -- Whether a user, if one is known, has used a coupon as often as it allows.
  abbrev pub is_used_up_by : ℕ → Option ℕ → Option ℕ → CouponTables o → Bool
  is_used_up_by k limit none s = false
  is_used_up_by k limit (some user) s = is_used_up limit (count_usages_by k user s)
