-- ===== src/Examples/Instances.antt =====
-- Small containers that keep the promises of `Stores`, for the tests.
use text.Mathlib.TextPositions.{eq_refl}
use hancoin.Prelude.{
  ◌≡◌, refl, ◌⊎◌, inr, String, ℕ, Bool, true, false, nat_eq, ◌&&◌, length, List, [], contains, ◌∷◌,
  none, some, arith, ◌==◌, if◌then◌else◌,
}
use hancoin.P2p.Message.{Signing}
use hancoin.Stores.{DashMap, DashSet, LruCache}
use hancoin.Account.{Account}
use hancoin.Ledger.{Stores, lookup}

module _ {V : Type 0} where
  pub get_insert_lem :
      (m : List (String × V)) (k j : String) (v : V)
      → lookup ((k, v) ∷ m) j ≡ (if k == j then some v else lookup m j)
  get_insert_lem m k j v = refl

  pub peek_put_self_lem :
      (m : List (String × V)) (k : String) (v : V) → lookup ((k, v) ∷ m) k ≡ some v
  peek_put_self_lem m k v = ground (arith, eq_refl k)

  pub peek_put_ne_lem :
      (m : List (String × V)) (k j : String) (v : V)
      → (k == j) ≡ false
      → (lookup ((k, v) ∷ m) j ≡ none) ⊎ (lookup ((k, v) ∷ m) j ≡ lookup m j)
  peek_put_ne_lem m k j v h = inr (ground arith)

-- A list with the newest entry first, as a map.
abbrev pub list_map : (V : Type 0) → DashMap V
list_map V = record {
  Map = List (String × V);
  empty = [];
  get = λ m k. lookup m k;
  insert = λ m k v. (k, v) ∷ m;
  get_empty = λ k. refl;
  get_insert = get_insert_lem;
}

-- The same, as a cache that is large enough to drop nothing.
abbrev pub list_cache : (V : Type 0) → LruCache V
list_cache V = record {
  Cache = List (String × V);
  empty = [];
  peek = λ c k. lookup c k;
  get = λ c k. (lookup c k, c);
  put = λ c k v. (k, v) ∷ c;
  peek_empty = λ k. refl;
  get_value = λ c k. refl;
  peek_get = λ c k j. refl;
  peek_put_self = peek_put_self_lem;
  peek_put_ne = peek_put_ne_lem;
}

abbrev pub list_set : DashSet
list_set = record {
  Set = List String;
  empty = [];
  contains = contains;
  insert = λ s k. k ∷ s;
  contains_empty = λ k. refl;
  contains_insert = λ s k j. refl;
}

abbrev pub lists : Stores
lists = record {
  accounts = list_map Account;
  transactions = list_map _;
  moments = list_map _;
  cache = list_cache Account;
}

abbrev pub same : List ℕ → List ℕ → Bool
same [] [] = true
same (c ∷ s) (d ∷ t) = nat_eq c d && same s t
same _ _ = false

pub same_refl : (s : List ℕ) → same s s ≡ true
same_refl [] = refl
same_refl (c ∷ s) = ground (arith, same_refl s)

pub serialize_lem :
    (p q s : List ℕ) → some (length p ∷ p) ≡ some s → some (length q ∷ q) ≡ some s → p ≡ q
serialize_lem p q s e f = cc (e, f)

-- A signature that is the bytes themselves.
abbrev pub plain : Signing
plain = record {
  Keypair = Unit;
  PublicKey = Unit;
  public = λ k. k;
  sign_bytes = λ k bytes. bytes;
  verify_bytes = λ k bytes signature. same bytes signature;
  serialize = λ p. some (length p ∷ p);
  verify_sign = λ k bytes. same_refl bytes;
  serialize_injective = serialize_lem;
}
