-- ===== src/Peer/Handshake/RoundTrip.antt =====
-- `ParseHandshake` after `Serialize`, and what it refuses.
use p2p_file_distribution.Base.{
  ℕ, ◌≤◌, ◌⊎◌, [], ◌∷◌, ◌++◌, length, length-append, take, drop, some, ok, err, panic, Option-cases,
  inl, inr, ◌≡◌, ◌≢◌, refl, ap, ◌∙◌, arith, append_assoc, append-nil, suc, zero, take-append-drop,
  length-take,
}
use mathlib.Core.Path.{subst, subst₂}
use p2p_file_distribution.Base.Bytes.{
  Bytes, read_full, read_full-append, read_full-length, bytes_eq_refl, bytes_eq→eq,
}
use p2p_file_distribution.Peer.Handshake.{
  Handshake, protocol_mismatch, protocol_string, handshake_len, serialize, parse_buffer,
  parse_handshake,
}

-- The arrays have their sizes.
pub record IsSized (h : Handshake) : Type 0 where
  pub reserved_size : length h.reserved ≡ 8
  pub info_hash_size : length h.info_hash ≡ 20
  pub peer_id_size : length h.peer_id ≡ 20

take-append : (n : ℕ) (xs ys : Bytes) → length xs ≡ n → take n (xs ++ ys) ≡ xs
take-append zero [] ys h = refl
take-append zero (x ∷ xs) ys h = absurd (omega arith)
take-append (suc n) [] ys h = absurd (omega arith)
take-append (suc n) (x ∷ xs) ys h = ap (◌∷◌ x) (take-append n xs ys (omega arith))

drop-append : (n : ℕ) (xs ys : Bytes) → length xs ≡ n → drop n (xs ++ ys) ≡ ys
drop-append zero [] ys h = refl
drop-append zero (x ∷ xs) ys h = absurd (omega arith)
drop-append (suc n) [] ys h = absurd (omega arith)
drop-append (suc n) (x ∷ xs) ys h = drop-append n xs ys (omega arith)

-- The last `n` bytes are taken whole.
take_all : (n : ℕ) (xs : Bytes) → length xs ≡ n → take n xs ≡ xs
take_all n xs h = rw (append-nil xs) at (take-append n xs [] h)

parse_buffer-serialize : (h : Handshake) → IsSized h → parse_buffer (serialize h) ≡ ok h
unfolding parse_buffer serialize
parse_buffer-serialize h s =
    let tail_of : Bytes = h.info_hash ++ h.peer_id in
    let first : take 8 (h.reserved ++ tail_of) ≡ h.reserved =
      take-append 8 h.reserved tail_of s.reserved_size in
    let second : take 20 (drop 8 (h.reserved ++ tail_of)) ≡ h.info_hash =
      rw (drop-append 8 h.reserved tail_of s.reserved_size)
        (take-append 20 h.info_hash h.peer_id s.info_hash_size) in
    let third : take 20 (drop 28 (h.reserved ++ tail_of)) ≡ h.peer_id =
      rw (← append_assoc h.reserved h.info_hash h.peer_id) (
        rw
          (drop-append 28 (h.reserved ++ h.info_hash) h.peer_id (
            omega (arith, length-append h.reserved h.info_hash, s.reserved_size, s.info_hash_size)))
          (take_all 20 h.peer_id s.peer_id_size)) in
    rw (bytes_eq_refl protocol_string)
      (λ i. ok (record { reserved = first i; info_hash = second i; peer_id = third i }))

length-serialize : (h : Handshake) → IsSized h → length (serialize h) ≡ handshake_len
unfolding serialize
length-serialize h s = omega (
  arith,
  length-append h.reserved (h.info_hash ++ h.peer_id),
  length-append h.info_hash h.peer_id,
  s.reserved_size,
  s.info_hash_size,
  s.peer_id_size,
)

-- `ParseHandshake` gives back the handshake that `Serialize` wrote, whatever follows it.
pub parse_handshake-serialize :
    (h : Handshake) (rest : Bytes) → IsSized h → parse_handshake (serialize h ++ rest) ≡ ok h
unfolding parse_handshake
parse_handshake-serialize h rest s =
    let whole : read_full handshake_len (serialize h ++ rest) ≡ some (serialize h, rest) =
      subst (λ n. read_full n (serialize h ++ rest) ≡ some (serialize h, rest))
        (length-serialize h s) (read_full-append (serialize h) rest) in
    rw (whole, parse_handshake) (parse_buffer-serialize h s)

parse_buffer-mismatch :
    (len : ℕ) (name rest : Bytes)
    → length name ≡ 19
    → (len ≢ 19) ⊎ (name ≢ protocol_string)
    → parse_buffer (len ∷ (name ++ rest)) ≡ err protocol_mismatch
unfolding parse_buffer
parse_buffer-mismatch len name rest hn wrong =
    rw (take-append 19 name rest hn) (ground (arith, bytes_eq→eq name protocol_string))

-- A stream that does not open with the length and the name of the protocol is refused.
pub parse_handshake-mismatch :
    (len : ℕ) (name rest : Bytes)
    → length name ≡ 19
    → 48 ≤ length rest
    → (len ≢ 19) ⊎ (name ≢ protocol_string)
    → parse_handshake (len ∷ (name ++ rest)) ≡ err protocol_mismatch
unfolding parse_handshake
parse_handshake-mismatch len name rest hn hr wrong =
    let buf : Bytes = len ∷ (name ++ take 48 rest) in
    let size : length buf ≡ handshake_len =
      omega (arith, length-append name (take 48 rest), length-take 48 rest) in
    let whole : buf ++ drop 48 rest ≡ len ∷ (name ++ rest) =
      ap (λ (t : Bytes). len ∷ t)
        (append_assoc name (take 48 rest) (drop 48 rest)
          ∙ ap (◌++◌ name) (take-append-drop 48 rest)) in
    let reads : read_full handshake_len (len ∷ (name ++ rest)) ≡ some (buf, drop 48 rest) =
      subst₂ (λ n t. read_full n t ≡ some (buf, drop 48 rest)) size whole
        (read_full-append buf (drop 48 rest)) in
    rw (reads, parse_handshake) (parse_buffer-mismatch len name (take 48 rest) hn wrong)

parse_buffer-ne-panic : (buf : Bytes) → length buf ≡ handshake_len → parse_buffer buf ≢ panic
unfolding parse_buffer
parse_buffer-ne-panic [] size = absurd (omega (arith, size))
parse_buffer-ne-panic (len ∷ buf) size = ground arith

-- The buffer is full where it is indexed.
pub parse_handshake-ne-panic : (stream : Bytes) → parse_handshake stream ≢ panic
unfolding parse_handshake
parse_handshake-ne-panic stream = elim (Option-cases (read_full handshake_len stream)) [
  | inl short ↦ rw (short, parse_handshake) (λ e. cc)
  | inr ((buf, rest), whole) ↦
      rw (whole, parse_handshake)
        (parse_buffer-ne-panic buf (read_full-length handshake_len stream buf rest whole).1)
]
