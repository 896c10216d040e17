-- ===== src/P2p/Message.antt =====
-- `P2PMessage` of src/p2p.rs. Keys and their signatures are libp2p's, `serialize` is bincode's.
use hancoin.Prelude.{
  ℕ, zero, suc, ◌≡◌, ◌<◌, ◌+◌, ◌*◌, ◌/◌, ◌%◌, ◌^◌, refl, sym, ap, ◌∙◌, Bool, true, List, [], ◌∷◌,
  ◌++◌, Option, none, some, arith, length, length-append, length-snoc, Option-cases, inl, inr, ◌⊎◌,
  if◌then◌else◌,
}
use hancoin.Machine.{Clock}

abbrev pub Bytes : Type 0
Bytes = List ℕ

pub record P2PMessage : Type 0 where
  pub version : ℕ
  pub timestamp : ℕ
  pub payload : Bytes
  pub signature : Bytes

-- A clock before the epoch is a panic.
unfoldable pub new : Bytes → Clock → Option P2PMessage
new payload none = none
new payload (some t) =
    some (record { version = 1; timestamp = t; payload = payload; signature = [] })

-- `to_be_bytes` of an integer of that many bytes.
unfoldable pub to_be_bytes : ℕ → ℕ → Bytes
to_be_bytes zero n = []
to_be_bytes (suc k) n = to_be_bytes k (n / 256) ++ (n % 256) ∷ []

-- What the program takes from libp2p and bincode: a signature of a key is one of its public key, and
-- different payloads have different serialised forms.
pub record Signing : Type 1 where
  pub Keypair : Type 0
  pub PublicKey : Type 0
  pub public : Keypair → PublicKey
  pub sign_bytes : Keypair → Bytes → Bytes
  pub verify_bytes : PublicKey → Bytes → Bytes → Bool
  pub serialize : Bytes → Option Bytes
  pub verify_sign :
      (k : Keypair) (bytes : Bytes) → verify_bytes (public k) bytes (sign_bytes k bytes) ≡ true
  pub serialize_injective : (p q s : Bytes) → serialize p ≡ some s → serialize q ≡ some s → p ≡ q

pub data VerifyError : Type 0 where
  not_serialized verification_failed : VerifyError

module _ (S : Signing) where
  -- The bytes that are signed.
  unfoldable pub signed_data : P2PMessage → Option Bytes
  signed_data m = elim (S.serialize m.payload) [
    | none ↦ none
    | some bytes ↦ some (bytes ++ to_be_bytes 8 m.timestamp)
  ]

  -- `none` is an error of `serialize`.
  unfoldable pub sign : P2PMessage → S.Keypair → Option P2PMessage
  sign m keypair = elim (signed_data m) [
    | none ↦ none
    | some bytes ↦ some (record m { signature = S.sign_bytes keypair bytes })
  ]

  -- `none` is success.
  unfoldable pub verify : P2PMessage → S.PublicKey → Option VerifyError
  verify m public_key = elim (signed_data m) [
    | none ↦ some not_serialized
    | some bytes ↦
        if S.verify_bytes public_key bytes m.signature then none else some verification_failed
  ]

from_be : ℕ → Bytes → ℕ
from_be acc [] = acc
from_be acc (b ∷ bs) = from_be (acc * 256 + b) bs

from_be-append :
    (acc : ℕ) (bs : Bytes) (b : ℕ) → from_be acc (bs ++ b ∷ []) ≡ from_be acc bs * 256 + b
unfolding from_be
from_be-append acc [] b = refl
from_be-append acc (c ∷ bs) b = from_be-append (acc * 256 + c) bs b

abbrev room : ℕ → ℕ
room zero = 1
room (suc k) = 256 * room k

from_be-to_be_bytes : (k n : ℕ) → n < room k → from_be 0 (to_be_bytes k n) ≡ n
unfolding from_be to_be_bytes
from_be-to_be_bytes zero n h = omega arith
from_be-to_be_bytes (suc k) n h =
    from_be-append 0 (to_be_bytes k (n / 256)) (n % 256)
    ∙ ground (arith, from_be-to_be_bytes k (n / 256) (omega arith))

pub length-to_be_bytes : (k n : ℕ) → length (to_be_bytes k n) ≡ k
unfolding to_be_bytes
length-to_be_bytes zero n = refl
length-to_be_bytes (suc k) n =
    ground (arith, length-snoc (to_be_bytes k (n / 256)) (n % 256), length-to_be_bytes k (n / 256))

pub to_be_bytes_injective :
    (m n : ℕ) → m < 2 ^ 64 → n < 2 ^ 64 → to_be_bytes 8 m ≡ to_be_bytes 8 n → m ≡ n
to_be_bytes_injective m n hm hn e =
    sym (from_be-to_be_bytes 8 m (omega arith))
    ∙ ap (from_be 0) e
    ∙ from_be-to_be_bytes 8 n (omega arith)

pub append_injective :
    (xs ys zs ws : Bytes) → length zs ≡ length ws → xs ++ zs ≡ ys ++ ws → (xs ≡ ys) × (zs ≡ ws)
append_injective [] [] zs ws h e = (refl, e)
append_injective [] (y ∷ ys) zs ws h e =
    absurd (ground (arith, h, length-append ys ws, ap length e))
append_injective (x ∷ xs) [] zs ws h e =
    absurd (ground (arith, h, length-append xs zs, ap length e))
append_injective (x ∷ xs) (y ∷ ys) zs ws h e =
    let r = append_injective xs ys zs ws h (cc e) in (cc (e, r.0), r.1)

module _ (S : Signing) where
  signed_data_parts :
      (m : P2PMessage) (bytes : Bytes)
      → signed_data S m ≡ some bytes
      → (b : Bytes) × (S.serialize m.payload ≡ some b) × (bytes ≡ b ++ to_be_bytes 8 m.timestamp)
  unfolding signed_data
  signed_data_parts m bytes e = ground arith

  -- Two messages that sign the same bytes have the same payload and the same time.
  pub signed_data_injective :
      (m n : P2PMessage) (bytes : Bytes)
      → m.timestamp < 2 ^ 64
      → n.timestamp < 2 ^ 64
      → signed_data S m ≡ some bytes
      → signed_data S n ≡ some bytes
      → (m.payload ≡ n.payload) × (m.timestamp ≡ n.timestamp)
  unfolding signed_data
  signed_data_injective m n bytes hm hn em en =
      let f = signed_data_parts m bytes em in
      let g = signed_data_parts n bytes en in
      let r =
        append_injective f.0 g.0 (to_be_bytes 8 m.timestamp) (to_be_bytes 8 n.timestamp)
          (length-to_be_bytes 8 m.timestamp ∙ sym (length-to_be_bytes 8 n.timestamp))
          (sym f.2 ∙ g.2) in
      (
        S.serialize_injective m.payload n.payload f.0 f.1 (g.1 ∙ ap some (sym r.0)),
        to_be_bytes_injective m.timestamp n.timestamp hm hn r.1,
      )

  -- A message either cannot be serialised, and is then not signed, or it is signed and then verified
  -- with the public key.
  pub verify-sign :
      (m : P2PMessage) (keypair : S.Keypair)
      → ((S.serialize m.payload ≡ none) × (sign S m keypair ≡ none))
        ⊎ ((signed : P2PMessage) × (sign S m keypair ≡ some signed)
            × (verify S signed (S.public keypair) ≡ none))
  unfolding sign verify signed_data
  verify-sign m keypair = elim (Option-cases (S.serialize m.payload)) [
    | inl bad ↦ inl (bad, rw (bad, sign, signed_data) refl)
    | inr (b, good) ↦ inr (
      record m { signature = S.sign_bytes keypair (b ++ to_be_bytes 8 m.timestamp) },
      (rw (good, sign, signed_data) refl),
      rw (good, verify, signed_data)
          (rw (S.verify_sign keypair (b ++ to_be_bytes 8 m.timestamp)) refl),
    )
  ]
