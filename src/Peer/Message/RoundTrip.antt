-- ===== src/Peer/Message/RoundTrip.antt =====
-- Reading what `Serialize` wrote, and what any successful read returns.
use p2p_file_distribution.Base.{
  ℕ, suc, ◌+◌, ◌<◌, Bool-cases, [], ◌∷◌, ◌++◌, length, ok, ◌≡◌, inl, inr, refl, ap, ◌∙◌, arith,
}
use native.Mathlib.Nat.{add_comm}
use native.Mathlib.Numerals.{add-one}
use p2p_file_distribution.Base.Int.{ℤ, pos, negsuc, eq_ℤ}
use p2p_file_distribution.Base.Bytes.{Bytes, u32, put_u32, u32-put, read_full, read_full-append}
use p2p_file_distribution.Peer.MessageId.{keep_alive}
use p2p_file_distribution.Peer.Message.{
  max_message_length, Message, id_of_byte, byte_of_id, message_of, read_after, read_message,
  serialize,
}

-- The id is an int8.
abbrev pub IsId : ℤ → Type 0
IsId (pos n) = n < 128
IsId (negsuc n) = n < 128

-- A message that the wire can carry: a keep-alive has no payload, and any other fits the cap.
pub record IsWire (m : Message) : Type 0 where
  pub id_ok : IsId m.id
  pub fits : length m.payload < max_message_length
  pub empty : m.id ≡ keep_alive → m.payload ≡ []

id_of-byte_of : (i : ℤ) → IsId i → id_of_byte (byte_of_id i) ≡ i
unfolding id_of_byte byte_of_id
id_of-byte_of (pos n) h = ground arith
id_of-byte_of (negsuc n) h = ground arith

pub byte_of-id_of : (b : ℕ) → b < 256 → byte_of_id (id_of_byte b) ≡ b
unfolding id_of_byte byte_of_id
byte_of-id_of b h = ground arith

message_of_full :
    (b : ℕ) (payload rest : Bytes)
    → message_of (read_full (suc (length payload)) (b ∷ (payload ++ rest)))
      ≡ ok (record { id = id_of_byte b; payload = payload }, rest)
unfolding message_of
message_of_full b payload rest = rw (read_full-append (b ∷ payload) rest, message_of)

pub read_prefix :
    (a b c d : ℕ) (rest : Bytes)
    → read_message (a ∷ b ∷ c ∷ d ∷ rest) ≡ read_after (u32 a b c d) rest
unfolding read_message
read_prefix a b c d rest = refl

read_body_of :
    (i : ℤ) (payload rest : Bytes)
    → IsId i
    → length payload < max_message_length
    → read_message (put_u32 (1 + length payload) ++ byte_of_id i ∷ (payload ++ rest))
      ≡ ok (record { id = i; payload = payload }, rest)
unfolding read_after
read_body_of i payload rest hi fits =
    read_prefix _ _ _ _ _
    ∙ rw (u32-put (1 + length payload) (omega arith), add_comm 1 (length payload), add-one)
        (after
          ∙ ap (λ (j : ℤ). ok (record { id = j; payload = payload }, rest)) (id_of-byte_of i hi))
  where
    after :
        read_after (suc (length payload)) (byte_of_id i ∷ (payload ++ rest))
        ≡ ok (record { id = id_of_byte (byte_of_id i); payload = payload }, rest)
    after = ground (arith, message_of_full (byte_of_id i) payload rest)

-- For a message whose id is an int8, whose payload is shorter than the cap on a message, and which has no
-- payload if it is a keep-alive: `ReadMessage` returns the message that `Serialize` wrote, and leaves what
-- follows it.
pub read_message-serialize :
    (m : Message) (rest : Bytes) → IsWire m → read_message (serialize m ++ rest) ≡ ok (m, rest)
unfolding serialize read_message read_after
read_message-serialize m rest w = elim (Bool-cases (eq_ℤ m.id keep_alive)) [
  | inl e ↦
      let is_alive : m.id ≡ keep_alive = ground arith in
      rw (e, serialize) (cc (is_alive, w.empty is_alive))
  | inr e ↦ rw (e, serialize) (read_body_of m.id m.payload rest w.id_ok w.fits)
]

-- A body whose id byte is 255 is read as a keep-alive with a payload, which `Serialize` writes
-- as four zero bytes: the sentinel does occur on the wire.
pub keep_alive_with_id :
    (payload rest : Bytes)
    → length payload < max_message_length
    → let m : Message = record { id = keep_alive; payload = payload } in
      (read_message (put_u32 (1 + length payload) ++ 255 ∷ (payload ++ rest)) ≡ ok (m, rest))
      × (serialize m ≡ 0 ∷ 0 ∷ 0 ∷ 0 ∷ [])
unfolding serialize
keep_alive_with_id payload rest h = (read_body_of keep_alive payload rest (omega arith) h, refl)
