-- ===== src/Peer/Message/Sound.antt =====
-- What a successful read says about the bytes that were read.
use p2p_file_distribution.Base.{
  ℕ, zero, suc, ◌+◌, ◌<◌, ◌≤◌, ltb, ◌==◌, false, Bool-cases, Option, none, some, [], ◌∷◌, ◌++◌,
  length, Result, ok, err, panic, ◌≡◌, ◌≢◌, inl, inr, refl, sym, ap, ◌∙◌, arith,
}
use mathlib.Core.Path.{subst, subst₂}
use p2p_file_distribution.Base.Int.{eq_ℤ}
use p2p_file_distribution.Base.Bytes.{
  Bytes, u32, IsByte, All, put_u32, split_u32, read_full, read_full-length, read_full-none,
}
use p2p_file_distribution.Peer.MessageId.{keep_alive}
use p2p_file_distribution.Peer.Message.{
  max_message_length, Message, Error, message_too_long, read_body, id_of_byte, byte_of_id,
  message_of, read_after, read_message, serialize,
}
use p2p_file_distribution.Peer.Message.RoundTrip.{IsWire, IsId, byte_of-id_of}

id_of_byte-IsId : (b : ℕ) → b < 256 → IsId (id_of_byte b)
unfolding id_of_byte
id_of_byte-IsId b h = ground arith

All-front : (xs ys : Bytes) → All IsByte (xs ++ ys) → All IsByte xs
All-front [] ys h = tt
All-front (x ∷ xs) ys h = (h.0, All-front xs ys h.1)

-- The outcome of reading a body of `len` bytes.
data Body (len : ℕ) (s : Bytes) : Result Error (Message × Bytes) → Type 0 where
  alive : len ≡ 0 → Body len s (ok (record { id = keep_alive; payload = [] }, s))
  message :
      (b : ℕ) (payload rest : Bytes)
      → len ≡ suc (length payload)
      → len ≤ max_message_length
      → s ≡ b ∷ (payload ++ rest)
      → Body len s (ok (record { id = id_of_byte b; payload = payload }, rest))
  long : max_message_length < len → Body len s (err message_too_long)
  short : length s < len → Body len s (err read_body)

message_of-Body :
    (n : ℕ) (s : Bytes)
    → suc n ≤ max_message_length
    → (r : Option (Bytes × Bytes)) → read_full (suc n) s ≡ r
    → Body (suc n) s (message_of r)
unfolding message_of
message_of-Body n s h none e = short (read_full-none (suc n) s e)
message_of-Body n s h (some ([], rest)) e =
    absurd (omega (arith, read_full-length (suc n) s [] rest e))
message_of-Body n s h (some (b ∷ payload, rest)) e =
    let (same, len) = read_full-length (suc n) s (b ∷ payload) rest e in
    message b payload rest (sym len) h same

positive : (n : ℕ) → (suc n == 0) ≡ false
positive n = ground arith

read_after-Body : (len : ℕ) (s : Bytes) → Body len s (read_after len s)
unfolding read_after
read_after-Body zero s = alive refl
read_after-Body (suc n) s = elim (Bool-cases (ltb max_message_length (suc n))) [
  | inl e ↦ rw (positive n, e) (long (ground arith))
  | inr e ↦ rw (positive n, e) (message_of-Body n s (ground arith) (read_full (suc n) s) refl)
]

Body-ne-panic :
    {len : ℕ} {s : Bytes} {r : Result Error (Message × Bytes)} → Body len s r → r ≢ panic
Body-ne-panic (alive e) = λ h. cc
Body-ne-panic (message b payload rest e h p) = λ h. cc
Body-ne-panic (long h) = λ h. cc
Body-ne-panic (short h) = λ h. cc

-- No stream of bytes makes `ReadMessage` panic.
pub read_message-ne-panic : (s : Bytes) → read_message s ≢ panic
unfolding read_message
read_message-ne-panic [] = λ e. cc
read_message-ne-panic (a ∷ []) = λ e. cc
read_message-ne-panic (a ∷ b ∷ []) = λ e. cc
read_message-ne-panic (a ∷ b ∷ c ∷ []) = λ e. cc
read_message-ne-panic (a ∷ b ∷ c ∷ d ∷ s) = Body-ne-panic (read_after-Body (u32 a b c d) s)

-- The bytes of a message that is not a keep-alive.
abbrev Reads : ℕ → Bytes → Message → Bytes → Type 0
Reads len s m rest =
    IsWire m × (len ≡ suc (length m.payload)) × (s ≡ byte_of_id m.id ∷ (m.payload ++ rest))

message-Reads :
    (len b : ℕ) (s payload rest : Bytes)
    → All IsByte s
    → len ≡ suc (length payload)
    → len ≤ max_message_length
    → s ≡ b ∷ (payload ++ rest)
    → id_of_byte b ≢ keep_alive
    → Reads len s (record { id = id_of_byte b; payload = payload }) rest
message-Reads len b s payload rest bytes e fits p ne =
    let small : b < 256 = (subst (All IsByte) p bytes).0 in
    (
      record { id_ok = id_of_byte-IsId b small; fits = omega arith; empty = λ h. absurd (ne h) },
      e,
      rw (byte_of-id_of b small) p,
    )

Body-ok :
    {len : ℕ} {s : Bytes} {r : Result Error (Message × Bytes)}
    → Body len s r
    → All IsByte s
    → (m : Message) (rest : Bytes) → r ≡ ok (m, rest)
    → m.id ≢ keep_alive
    → Reads len s m rest
Body-ok (alive e) bytes m rest h ne = absurd (ne (cc))
Body-ok {len} {s} (message b payload rest' e fits p) bytes m rest h ne =
    let n : Message = record { id = id_of_byte b; payload = payload } in
    let same : n ≡ m = cc in
    let left : rest' ≡ rest = cc in
    subst₂ (Reads len s) same left (
      message-Reads len b s payload rest' bytes e fits p
        (λ q. ne (sym (ap (λ (x : Message). x.id) same) ∙ q)))
Body-ok (long k) bytes m rest h ne = cc
Body-ok (short k) bytes m rest h ne = cc

serialize_of :
    (m : Message)
    → m.id ≢ keep_alive
    → serialize m ≡ put_u32 (1 + length m.payload) ++ byte_of_id m.id ∷ m.payload
unfolding serialize
serialize_of m ne = elim (Bool-cases (eq_ℤ m.id keep_alive)) [
  | inl e ↦ let is_alive : m.id ≡ keep_alive = ground arith in absurd (ne is_alive)
  | inr e ↦ rw e
]

-- A message other than a keep-alive is one that the wire can carry, and the bytes that were read
-- are the ones that `Serialize` writes for it.
pub read_message_sound :
    (s : Bytes) (m : Message) (rest : Bytes)
    → All IsByte s
    → read_message s ≡ ok (m, rest)
    → m.id ≢ keep_alive
    → IsWire m × (serialize m ++ rest ≡ s)
unfolding read_message
read_message_sound [] m rest bytes h ne = cc
read_message_sound (a ∷ []) m rest bytes h ne = cc
read_message_sound (a ∷ b ∷ []) m rest bytes h ne = cc
read_message_sound (a ∷ b ∷ c ∷ []) m rest bytes h ne = cc
read_message_sound (a ∷ b ∷ c ∷ d ∷ s) m rest bytes h ne =
    let (w, len, body) = Body-ok (read_after-Body (u32 a b c d) s) bytes.1.1.1.1 m rest h ne in
    let len' : 1 + length m.payload ≡ u32 a b c d = omega (arith, len) in
    let body_of : Bytes = byte_of_id m.id ∷ (m.payload ++ rest) in
    (
      w,
      rw (serialize_of m ne) (
          ap (λ (n : ℕ). put_u32 n ++ body_of) len'
          ∙ ap (λ (t : Bytes). put_u32 (u32 a b c d) ++ t) (sym body)
          ∙ ap (λ (p : Bytes). p ++ s)
              (split_u32 a b c d (bytes.0, (bytes.1.0, (bytes.1.1.0, (bytes.1.1.1.0, tt)))))),
    )
