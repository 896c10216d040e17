-- ===== src/Examples/Hex.antt =====
-- A decoder of hexadecimal text and a shape of JSON, for the tests.
use hancoin.Prelude.{
  ℕ, ◌+◌, ◌*◌, ◌-◌, ◌≡◌, String, true, List, [], ◌∷◌, Option, none, some, arith, length, inl, inr,
  if◌then◌else◌, ◌==◌, Option-cases,
}
use hancoin.Account.{codes, in_class}
use hancoin.Api.{Json, Crypto, TwoDigits}

hex_digit : ℕ → Option ℕ
hex_digit c =
    if in_class b'0' b'9' c
    then some (c - b'0')
    else if in_class b'a' b'f' c
    then some (c - b'a' + 10)
    else if in_class b'A' b'F' c
    then some (c - b'A' + 10)
    else none

abbrev join_byte : Option ℕ → Option ℕ → Option (List ℕ) → Option (List ℕ)
join_byte (some hi) (some lo) (some rest) = some ((hi * 16 + lo) ∷ rest)
join_byte _ _ _ = none

pub hex_bytes : List ℕ → Option (List ℕ)
unfolding hex_digit
hex_bytes [] = some []
hex_bytes (c ∷ []) = none
hex_bytes (c ∷ d ∷ cs) = join_byte (hex_digit c) (hex_digit d) (hex_bytes cs)

pub length-hex_bytes :
    (cs bytes : List ℕ) → hex_bytes cs ≡ some bytes → length cs ≡ 2 * length bytes
unfolding hex_bytes
length-hex_bytes [] bytes e = ground arith
length-hex_bytes (c ∷ []) bytes e = cc
length-hex_bytes (c ∷ d ∷ cs) bytes e = elim (Option-cases (hex_bytes cs)) [
  | inl bad ↦ ground arith
  | inr (rest, f) ↦ ground (arith, length-hex_bytes cs rest f)
]

-- Every key and signature is good here.
abbrev pub trusting : Crypto
trusting = record {
  VerifyingKey = List ℕ;
  Signature = List ℕ;
  decode = λ s. hex_bytes (codes s);
  key_from_bytes = λ b. some b;
  signature_from_bytes = λ b. some b;
  verify = λ k m s. true;
}

pub trusting-TwoDigits : TwoDigits trusting
trusting-TwoDigits s bytes e = length-hex_bytes (codes s) bytes e

pub data Body : Type 0 where
  text : String → Body
  number : ℕ → Body
  field : String → Body → Body → Body
  end : Body

abbrev pub get_field : Body → String → Option Body
get_field (field k v rest) key = if k == key then some v else get_field rest key
get_field _ key = none

abbrev pub text_of : Body → Option String
text_of (text s) = some s
text_of _ = none

abbrev pub number_of : Body → Option ℕ
number_of (number n) = some n
number_of _ = none

abbrev pub bodies : Json
bodies = record { Value = Body; get = get_field; as_str = text_of; as_u64 = number_of }
