-- ===== src/Api/Faucet/Locked.antt =====
-- Nobody passes the first checks of `handle_faucet` of src/main.rs: an identifier has 32 to 44
-- characters by its pattern, and would need 64 to be the hexadecimal text of a key.
use hancoin.Prelude.{
  ℕ, ◌≤◌, ◌≡◌, String, List, true, false, some, arith, length, Option-cases, Bool-cases, nat_eq,
  inl, inr,
}
use hancoin.Machine.{Profile, Clock}
use hancoin.Account.{codes, is_valid_account_id}
use hancoin.Ledger.{Stores, Ledger}
use hancoin.Api.{Outcome, reply, reject, panic, Json, Crypto, TwoDigits, get_str}
use hancoin.Api.Faucet.{authenticate, handle_faucet}

length-valid_account_id :
    (s : String) → is_valid_account_id s ≡ true → (32 ≤ length (codes s)) × (length (codes s) ≤ 44)
unfolding is_valid_account_id
length-valid_account_id s h = ground arith

-- An answer that is not a reply.
abbrev pub Refused {ℓ} : {A : Type ℓ} → Outcome A → Type 0
Refused (reply a) = ⊥
Refused (reject e) = Unit
Refused panic = Unit

module _ (js : Json) (C : Crypto) (two : TwoDigits C) where
  not_32 :
      (s : String) (bytes : List ℕ)
      → is_valid_account_id s ≡ true
      → C.decode s ≡ some bytes
      → nat_eq (length bytes) 32 ≡ false
  not_32 s bytes valid e = ground (arith, two s bytes e, length-valid_account_id s valid)

  authenticate-Refused : (req : js.Value) → Refused (authenticate js C req)
  unfolding authenticate
  authenticate-Refused req = elim (Option-cases (get_str js req "account_id")) [
    | inl e ↦ rw e tt
    | inr (id, e) ↦ rw e (elim (Option-cases (get_str js req "signature")) [
      | inl f ↦ rw f tt
      | inr (sig, f) ↦ rw f (elim (Bool-cases (is_valid_account_id id)) [
        | inr bad ↦ rw bad tt
        | inl valid ↦ rw valid (elim (Option-cases (C.decode id)) [
          | inl g ↦ rw g tt
          | inr (bytes, g) ↦ rw (g, not_32 id bytes valid g) tt
        ])
      ])
    ])
  ]

  -- Whatever the request, the clock and the ledger: the faucet pays nobody and changes nothing.
  pub handle_faucet-Refused :
      (S : Stores) (profile : Profile) (req : js.Value) (clock created : Clock) (l : Ledger S)
      → Refused (handle_faucet S js C profile req clock created l).0
        × ((handle_faucet S js C profile req clock created l).1 ≡ l)
  unfolding handle_faucet
  handle_faucet-Refused S profile req clock created l = ground (arith, authenticate-Refused req)
