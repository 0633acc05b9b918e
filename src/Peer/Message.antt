-- ===== src/Peer/Message.antt =====
-- internal/peer/message.go: a message is a four-byte length, an id byte and a payload.
pub mod RoundTrip
pub mod Sound
use p2p_file_distribution.Base.{
  ℕ, zero, suc, ◌+◌, ◌-◌, ◌%◌, ltb, ◌==◌, if◌then◌else◌, Bool, Option, none, some, List, [], ◌∷◌,
  ◌++◌, length, Result, ok, err, panic, ◌>>=◌,
}
use p2p_file_distribution.Base.Int.{ℤ, pos, negsuc, eq_ℤ}
use p2p_file_distribution.Peer.MessageId
use p2p_file_distribution.Base.Bytes.{Bytes, put_u32, be_u32, read_full}

-- 128 * 1024
abbrev pub max_message_length : ℕ
max_message_length = 131072

pub record Message : Type 0 where
  pub id : ℤ
  pub payload : Bytes

pub data Error : Type 0 where
  read_length message_too_long read_body : Error

-- MessageID(b) of a byte, and byte(id) of an int8: the same eight bits.
unfoldable pub id_of_byte : ℕ → ℤ
id_of_byte b = if ltb b 128 then pos b else negsuc (255 - b)

unfoldable pub byte_of_id : ℤ → ℕ
byte_of_id (pos n) = n % 256
byte_of_id (negsuc n) = 255 - n % 256

-- The body behind a length that is neither 0 nor too long.
message_of : Option (Bytes × Bytes) → Result Error (Message × Bytes)
unfolding id_of_byte
message_of none = err read_body
message_of (some ([], rest)) = panic
message_of (some (b ∷ payload, rest)) = ok (record { id = id_of_byte b; payload = payload }, rest)

pub read_after : ℕ → Bytes → Result Error (Message × Bytes)
unfolding message_of
read_after len rest =
    if len == 0
    then ok (record { id = MessageId.keep_alive; payload = [] }, rest)
    else if ltb max_message_length len
    then err message_too_long
    else message_of (read_full len rest)

-- The message at the front of a stream, with the stream behind it.
unfoldable pub read_message : Bytes → Result Error (Message × Bytes)
unfolding read_after read_full be_u32
read_message stream = elim (read_full 4 stream) [
  | none ↦ err read_length
  | some (len_buf, rest) ↦ be_u32 len_buf >>= λ len. read_after len rest
]

unfoldable pub serialize : Message → Bytes
unfolding byte_of_id
serialize m =
    if eq_ℤ m.id MessageId.keep_alive
    then 0 ∷ 0 ∷ 0 ∷ 0 ∷ []
    else put_u32 (1 + length m.payload) ++ byte_of_id m.id ∷ m.payload
