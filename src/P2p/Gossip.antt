-- ===== src/P2p/Gossip.antt =====
-- How `start_p2p` of src/p2p.rs names the messages that it gossips. The hash is the crate blake3's: of
-- the bytes of all updates together, 32 bytes long.
use mathlib.Core.List.{append_assoc}
use hancoin.Prelude.{
  ℕ, ◌≡◌, ◌<◌, ◌^◌, sym, ap, ◌∙◌, [], ◌++◌, Option, none, some, arith, length, length-append,
}
use hancoin.P2p.Message.{
  Bytes, to_be_bytes, to_be_bytes_injective, append_injective, length-to_be_bytes,
}

-- `source` is the bytes of the peer's identifier.
pub record GossipMessage : Type 0 where
  pub source : Option Bytes
  pub payload : Bytes
  pub sequence_number : Option ℕ

-- `unwrap_or_default`.
abbrev pub or_empty : Option Bytes → Bytes
or_empty none = []
or_empty (some bytes) = bytes

abbrev pub or_zero : Option ℕ → ℕ
or_zero none = 0
or_zero (some n) = n

-- The bytes that go to the hasher.
unfoldable pub hashed : GossipMessage → Bytes
hashed m = or_empty m.source ++ (m.payload ++ to_be_bytes 8 (or_zero m.sequence_number))

-- The first 32 bytes of 32 are all.
unfoldable pub message_id : (Bytes → Bytes) → GossipMessage → Bytes
message_id hash m = hash (hashed m)

-- Two messages with the same hashed bytes, from peers with identifiers of one length, are from the
-- same peer, with the same content and the same number, where no number counts as 0.
pub hashed_injective :
    (m n : GossipMessage)
    → length (or_empty m.source) ≡ length (or_empty n.source)
    → or_zero m.sequence_number < 2 ^ 64
    → or_zero n.sequence_number < 2 ^ 64
    → hashed m ≡ hashed n
    → (or_empty m.source ≡ or_empty n.source)
      × (m.payload ≡ n.payload)
      × (or_zero m.sequence_number ≡ or_zero n.sequence_number)
unfolding hashed
hashed_injective m n h hm hn e =
    let tail = λ (k : GossipMessage). k.payload ++ to_be_bytes 8 (or_zero k.sequence_number) in
    let r =
      append_injective (or_empty m.source) (or_empty n.source) (tail m) (tail n)
        (omega (
          arith,
          h,
          ap length e,
          length-append (or_empty m.source) (tail m),
          length-append (or_empty n.source) (tail n),
        ))
        e in
    let q =
      append_injective m.payload n.payload (to_be_bytes 8 (or_zero m.sequence_number))
        (to_be_bytes 8 (or_zero n.sequence_number))
        (length-to_be_bytes 8 (or_zero m.sequence_number)
          ∙ sym (length-to_be_bytes 8 (or_zero n.sequence_number)))
        r.1 in
    (r.0, q.0, to_be_bytes_injective _ _ hm hn q.1)

-- The source and the content are hashed with nothing between them: bytes that pass from the end of
-- the source to the start of the content change no identifier, whatever the hash is.
message_id_shift :
    (hash : Bytes → Bytes) (s moved d : Bytes) (number : Option ℕ)
    → message_id hash (record { source = some (s ++ moved); payload = d; sequence_number = number })
      ≡ message_id hash (record { source = some s; payload = moved ++ d; sequence_number = number })
unfolding message_id hashed
message_id_shift hash s moved d number = simp append_assoc
