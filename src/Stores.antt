-- ===== src/Stores.antt =====
-- The containers that the program takes from other crates, as interfaces: what their documentation
-- promises of the operations that the program calls. Keys are strings throughout.
use text.Mathlib.TextPositions.{eq_refl}
use hancoin.Prelude.{
  String, ◌≡◌, ◌⊎◌, inl, inr, Bool, false, ◌||◌, Option, none, some, arith, Bool-cases, ◌==◌,
  eq_iff, if◌then◌else◌,
}

-- `dashmap::DashMap<String, V>`: a map; `insert` replaces the value of a key that is there.
pub record DashMap (V : Type 0) : Type 1 where
  pub Map : Type 0
  pub empty : Map
  pub get : Map → String → Option V
  pub insert : Map → String → V → Map
  pub get_empty : (k : String) → get empty k ≡ none
  pub get_insert :
      (m : Map) (k j : String) (v : V) → get (insert m k v) j ≡ (if k == j then some v else get m j)

module _ {V : Type 0} (D : DashMap V) (m : D.Map) where
  pub get-insert_self : (k : String) (v : V) → D.get (D.insert m k v) k ≡ some v
  get-insert_self k v = ground (arith, D.get_insert m k k v, eq_refl k)

  pub get-insert_ne :
      (k j : String) (v : V) → (k == j) ≡ false → D.get (D.insert m k v) j ≡ D.get m j
  get-insert_ne k j v h = ground (arith, D.get_insert m k j v)

-- `dashmap::DashSet<String>`.
pub record DashSet : Type 1 where
  pub Set : Type 0
  pub empty : Set
  pub contains : Set → String → Bool
  pub insert : Set → String → Set
  pub contains_empty : (k : String) → contains empty k ≡ false
  pub contains_insert :
      (s : Set) (k j : String) → contains (insert s k) j ≡ (k == j || contains s j)

-- `lru::LruCache<String, V>`: `get` moves the entry that it finds to the front and drops none; `put`
-- stores an entry and may drop others.
pub record LruCache (V : Type 0) : Type 1 where
  pub Cache : Type 0
  -- a cache that holds at most 1000 entries
  pub empty : Cache
  pub peek : Cache → String → Option V
  pub get : Cache → String → Option V × Cache
  pub put : Cache → String → V → Cache
  pub peek_empty : (k : String) → peek empty k ≡ none
  pub get_value : (c : Cache) (k : String) → (get c k).0 ≡ peek c k
  pub peek_get : (c : Cache) (k j : String) → peek (get c k).1 j ≡ peek c j
  pub peek_put_self : (c : Cache) (k : String) (v : V) → peek (put c k v) k ≡ some v
  pub peek_put_ne :
      (c : Cache) (k j : String) (v : V)
      → (k == j) ≡ false
      → (peek (put c k v) j ≡ none) ⊎ (peek (put c k v) j ≡ peek c j)

-- What is found after a `put` was put in there, or was there before.
pub peek-put :
    {V : Type 0} (L : LruCache V) (c : L.Cache) (k j : String) (v w : V)
    → L.peek (L.put c k v) j ≡ some w
    → ((k ≡ j) × (v ≡ w)) ⊎ (L.peek c j ≡ some w)
peek-put L c k j v w e = elim (Bool-cases (k == j)) [
  | inl same ↦
      let self = L.peek_put_self c k v in
      let p : k ≡ j = (eq_iff k j).0 same in inl (p, cc (p, self))
  | inr other ↦ ground (arith, L.peek_put_ne c k j v)
]
