-- ===== src/Supply.antt =====
-- The total supply and its distribution over the years, of src/types.rs.
use hancoin.Prelude.{
  ℕ, zero, suc, ◌+◌, ◌*◌, ◌/◌, ◌-◌, ◌≤◌, ◌≡◌, refl, ◌↔◌, ◌&&◌, Option, none, some, arith, ltb, leb,
  nat_eq, if◌then◌else◌,
}
use hancoin.Machine.{u64_mod}

abbrev pub han_total_supply : ℕ
han_total_supply = 1000000000000

-- `u64::checked_mul` and `u64::checked_div`.
abbrev pub checked_mul : ℕ → ℕ → Option ℕ
checked_mul a b = if ltb (a * b) u64_mod then some (a * b) else none

abbrev pub checked_div : ℕ → ℕ → Option ℕ
checked_div a b = if nat_eq b 0 then none else some (a / b)

-- The `?` operator.
infixl 5 ◌>>=◌
abbrev ◌>>=◌ {ℓ κ} : {A : Type ℓ} {B : Type κ} → Option A → (A → Option B) → Option B
none >>= f = none
some a >>= f = f a

-- `HAN_TOTAL_SUPPLY.checked_mul(percent)?.checked_div(100)`.
unfoldable pub percent_of_supply : ℕ → Option ℕ
percent_of_supply percent = do a ← checked_mul han_total_supply percent; checked_div a 100

unfoldable pub yearly_distribution : ℕ → Option ℕ
yearly_distribution year =
    if nat_eq year 0
    then some 0
    else if nat_eq year 1
    then percent_of_supply 20
    else if nat_eq year 2
    then percent_of_supply 10
    else if nat_eq year 3
    then percent_of_supply 5
    else if nat_eq year 4
    then percent_of_supply 3
    else if nat_eq year 5
    then percent_of_supply 2
    else if leb 6 year && leb year 105
    then (do remaining ← percent_of_supply 60; checked_div remaining 100)
    else some 0

-- What is given out up to a year, that year included; `none` if one of the years has no amount.
unfoldable pub distributed : ℕ → Option ℕ
distributed zero = yearly_distribution 0
distributed (suc year) = do
  before ← distributed year
  now ← yearly_distribution (suc year)
  some (before + now)

-- The distinct amounts, each a number of shares of 0.2 percent of the supply.
share : ℕ
share = 2000000000

percents :
    (percent_of_supply 20 ≡ some (100 * share))
    × (percent_of_supply 10 ≡ some (50 * share))
    × (percent_of_supply 5 ≡ some (25 * share))
    × (percent_of_supply 3 ≡ some (15 * share))
    × (percent_of_supply 2 ≡ some (10 * share))
    × (percent_of_supply 60 ≡ some (300 * share))
unfolding percent_of_supply share
percents = (refl, refl, refl, refl, refl, refl)

hundredth : checked_div (300 * share) 100 ≡ some (3 * share)
unfolding share
hundredth = refl

supply_shares : 500 * share ≡ han_total_supply
unfolding share
supply_shares = refl

-- The shares of a year: for each of the first five years its own number, equal ones for a century,
-- then none.
amount : ℕ → ℕ
amount year =
    if leb year 0
    then 0
    else if leb year 1
    then 100
    else if leb year 2
    then 50
    else if leb year 3
    then 25
    else if leb year 4
    then 15
    else if leb year 5
    then 10
    else if leb year 105
    then 3
    else 0

total : ℕ → ℕ
total year =
    if leb year 0
    then 0
    else if leb year 1
    then 100
    else if leb year 2
    then 150
    else if leb year 3
    then 175
    else if leb year 4
    then 190
    else if leb year 5
    then 200
    else if leb year 105
    then 200 + (year - 5) * 3
    else 500

yearly_distribution-amount : (year : ℕ) → yearly_distribution year ≡ some (amount year * share)
unfolding yearly_distribution amount
yearly_distribution-amount year = ground (arith, percents, hundredth)

total-suc : (year : ℕ) → total (suc year) ≡ total year + amount (suc year)
unfolding total amount
total-suc year = ground arith

total_bounds :
    (year : ℕ)
    → (total year ≤ 500) × (105 ≤ year → total year ≡ 500) × (total year ≡ 500 → 105 ≤ year)
unfolding total
total_bounds year = (ground arith, (λ h. ground arith), (λ h. ground arith))

amount_zero : amount 0 ≡ 0
unfolding amount
amount_zero = refl

distributed-total : (year : ℕ) → distributed year ≡ some (total year * share)
unfolding distributed
distributed-total zero = unfold total in ground (arith, yearly_distribution-amount 0, amount_zero)
distributed-total (suc year) =
    let sum : total (suc year) * share ≡ total year * share + amount (suc year) * share =
      rw total-suc (omega arith) in
    ground (arith, sum, distributed-total year, yearly_distribution-amount (suc year))

-- Every year has an amount, with no overflow on the way; what is given out up to a year never passes
-- the total supply, and is all of it exactly from year 105 on.
pub distributed_bounds :
    (year : ℕ)
    → (t : ℕ) × (distributed year ≡ some t)
      × (t ≤ han_total_supply)
      × ((105 ≤ year) ↔ (t ≡ han_total_supply))
unfolding share
distributed_bounds year = (
  total year * share,
  distributed-total year,
  omega (arith, (total_bounds year).0),
  ((λ h. omega (arith, (total_bounds year).1 h)), (λ e. (total_bounds year).2 (omega (arith, e)))),
)
