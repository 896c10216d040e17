-- ===== src/Api/Faucet/Tasks/Counts.antt =====
-- Counting texts in lists, for the payments to the accounts of src/main.rs.
use hancoin.Prelude.{
  ℕ, ◌+◌, ◌≤◌, ◌≡◌, refl, String, List, [], ◌∷◌, suc, arith, length, ◌==◌, eq_iff, if◌then◌else◌,
  Distinct, contains,
}

-- How often a text stands in a list.
abbrev pub count : String → List String → ℕ
count id [] = 0
count id (x ∷ xs) = if x == id then suc (count id xs) else count id xs

-- How often the texts of one list stand in another.
abbrev pub counts : List String → List String → ℕ
counts [] log = 0
counts (id ∷ ids) log = count id log + counts ids log

pub counts-nil : (ids : List String) → counts ids [] ≡ 0
counts-nil [] = refl
counts-nil (id ∷ ids) = omega (arith, counts-nil ids)

pub counts-cons :
    (ids : List String) (c : String) (log : List String)
    → Distinct ids
    → counts ids (c ∷ log) ≡ counts ids log + (if contains ids c then 1 else 0)
counts-cons [] c log d = refl
counts-cons (id ∷ ids) c log d = ground (arith, counts-cons ids c log d.1, eq_iff c id, eq_iff id c)

-- Different texts stand in a list at most as often as it is long.
pub counts-le : (ids log : List String) → Distinct ids → counts ids log ≤ length log
counts-le ids [] d = omega (arith, counts-nil ids)
counts-le ids (c ∷ log) d = ground (arith, counts-cons ids c log d, counts-le ids log d)
