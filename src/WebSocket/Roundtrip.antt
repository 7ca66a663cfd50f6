-- ===== src/WebSocket/Roundtrip.antt =====
-- What `encode_client_frame` writes, `read_client_frame` reads back, with the rest of the stream.
use hermes_ops.Prelude.{
  ℕ, zero, suc, ◌+◌, ◌%◌, ◌^◌, ◌<◌, bit_or, bit_xor, ◌≡◌, refl, ap, Bool, true, false, ◌&&◌, [],
  ◌∷◌, ◌++◌, arith, leb, nat_beq, nat_beq_iff, length, All, ◌/◌, ◌≤◌, inl, inr, ltb, Bool-cases,
}
use hermes_ops.Prelude.Result.{ok}
use hermes_ops.WebSocket.Frame.{
  Bytes, read_exact, pack, unpack, mask_byte, apply_mask, first_byte, is_opcode, read_length,
  check_close, check_payload, read_payload, encode_header, read_client_frame, encode_client_frame,
}
use mathlib.Core.Bool.{not, ◌||◌}
use mathlib.Core.List.{append_assoc}

abbrev pub IsBytes : Bytes → Type 0
IsBytes = All (λ b. b < 256)

abbrev same_at : ℕ → ℕ → Bool
same_at m x = nat_beq (bit_xor (bit_xor x m) m) x

-- A test of bytes that holds at each number below a bound, run as a table.
module _ (test : ℕ → Bool) where
  holds_below : ℕ → Bool
  holds_below zero = true
  holds_below (suc bound) = holds_below bound && test bound

  test_at : (bound at : ℕ) → at < bound → holds_below bound ≡ true → test at ≡ true
  unfolding holds_below
  test_at zero at small table = absurd (omega arith)
  test_at (suc bound) at small table = ground (arith, test_at bound at)

-- All masks at one byte, and all bytes.
abbrev twice_at : ℕ → Bool
twice_at x = holds_below (λ m. same_at m x) 256

xor_table : holds_below twice_at 256 ≡ true
unfolding holds_below
xor_table = refl

xor_twice : (x m : ℕ) → x < 256 → m < 256 → bit_xor (bit_xor x m) m ≡ x
xor_twice x m hx hm =
    (nat_beq_iff _ x).0 (test_at (λ k. same_at k x) 256 m hm (test_at twice_at 256 x hx xor_table))

abbrev or_adds : ℕ → Bool
or_adds n = nat_beq (bit_or 128 n) (128 + n)

or_table : holds_below or_adds 128 ≡ true
unfolding holds_below
or_table = refl

or_high : (n : ℕ) → n < 128 → bit_or 128 n ≡ 128 + n
or_high n h = (nat_beq_iff _ _).0 (test_at or_adds 128 n h or_table)

mask_byte_bound : (mask : Bytes) (i : ℕ) → IsBytes mask → mask_byte mask i < 256
mask_byte_bound [] i h = omega arith
mask_byte_bound (m ∷ ms) zero h = h.0
mask_byte_bound (m ∷ ms) (suc i) h = mask_byte_bound ms i h.1

-- Masking twice with one key gives the payload back.
pub apply_mask_twice :
    (mask : Bytes) (i : ℕ) (payload : Bytes)
    → IsBytes mask
    → IsBytes payload
    → apply_mask mask i (apply_mask mask i payload) ≡ payload
unfolding apply_mask
apply_mask_twice mask i [] hm hp = refl
apply_mask_twice mask i (b ∷ bs) hm hp = cc (
  xor_twice b (mask_byte mask (i % 4)) hp.0 (mask_byte_bound mask (i % 4) hm),
  apply_mask_twice mask (i + 1) bs hm hp.1,
)

pub length-apply_mask :
    (mask : Bytes) (i : ℕ) (payload : Bytes) → length (apply_mask mask i payload) ≡ length payload
unfolding apply_mask
length-apply_mask mask i [] = refl
length-apply_mask mask i (b ∷ bs) = ap suc (length-apply_mask mask (i + 1) bs)

-- Exactly as many bytes as are asked for.
pub read_exact-append :
    (n : ℕ) (bs rest : Bytes) → length bs ≡ n → read_exact n (bs ++ rest) ≡ ok (bs, rest)
unfolding read_exact
read_exact-append zero [] rest h = refl
read_exact-append zero (b ∷ bs) rest h = absurd (omega arith)
read_exact-append (suc n) [] rest h = absurd (omega arith)
read_exact-append (suc n) (b ∷ bs) rest h = rw (read_exact-append n bs rest (omega arith))

pack_2 : (n : ℕ) → n < 65536 → (unpack (pack 2 n) ≡ n) × (length (pack 2 n) ≡ 2)
unfolding pack unpack
pack_2 n h = omega arith

pack_8 :
    (n : ℕ)
    → n < 2 ^ 63
    → (unpack (pack 8 n) ≡ n) × (length (pack 8 n) ≡ 8) × (leb 128 (first_byte (pack 8 n)) ≡ false)
unfolding pack unpack
pack_8 n h = (omega arith, omega arith, ground arith)

-- A header that announces a length: its first two bytes, and what the reader makes of the others.
record Announces (n opcode : ℕ) : Type 0 where
  second : ℕ
  extension : Bytes
  encoded : encode_header 128 opcode n ≡ bit_or 128 opcode ∷ second ∷ extension
  masked : nat_beq (second / 128 % 2) 0 ≡ false
  announced : (rest : Bytes) → read_length (second % 128) (extension ++ rest) ≡ ok (n, rest)

header-Announces : (n opcode : ℕ) → n < 2 ^ 63 → Announces n opcode
unfolding encode_header read_length
header-Announces n opcode h = elim (Bool-cases (ltb n 126)) [
  | inl short ↦ record {
    second = bit_or 128 n;
    extension = [];
    encoded = ground arith;
    masked = rw (or_high n (ground arith)) (ground arith);
    announced = λ rest. rw (or_high n (ground arith)) (ground arith);
  }
  | inr long ↦ elim (Bool-cases (leb n 65535)) [
    | inl fits ↦ record {
      second = 254;
      extension = pack 2 n;
      encoded = ground arith;
      masked = refl;
      announced = λ rest. ground (arith, read_exact-append 2 (pack 2 n) rest, pack_2 n);
    }
    | inr large ↦ record {
      second = 255;
      extension = pack 8 n;
      encoded = ground arith;
      masked = refl;
      announced = λ rest. ground (arith, read_exact-append 8 (pack 8 n) rest, pack_8 n h);
    }
  ]
]

-- What a client may send: the reader's own demands on a frame.
pub record IsSendable (is_utf8 : Bytes → Bool) (maximum opcode : ℕ) (payload mask : Bytes)
    : Type 0 where
  pub known_opcode : is_opcode opcode ≡ true
  pub fits : length payload ≤ maximum
  pub short_control : leb 8 opcode ≡ true → length payload ≤ 125
  pub good_close : nat_beq opcode 8 ≡ true → check_close is_utf8 payload ≡ ok tt
  pub four : length mask ≡ 4
  pub mask_bytes : IsBytes mask
  pub payload_bytes : IsBytes payload

module _ (is_utf8 : Bytes → Bool) (maximum opcode : ℕ) (payload mask : Bytes)
    (s : IsSendable is_utf8 maximum opcode payload mask) where
  checked :
      (rest : Bytes)
      → check_payload is_utf8 opcode payload rest
        ≡ ok (record { opcode = opcode; payload = payload }, rest)
  unfolding check_payload
  checked rest = ground (arith, s.good_close)

  body_reads :
      (rest : Bytes)
      → read_payload is_utf8 maximum opcode
          (length payload, mask ++ (apply_mask mask 0 payload ++ rest))
        ≡ ok (record { opcode = opcode; payload = payload }, rest)
  unfolding read_payload
  body_reads rest =
      let allowed : (leb 8 opcode && ltb 125 (length payload)) ≡ false =
        ground (arith, s.short_control) in
      let fits : ltb maximum (length payload) ≡ false = ground (arith, s.fits) in
      rw
        (
          allowed,
          fits,
          read_exact-append 4 mask (apply_mask mask 0 payload ++ rest) s.four,
          read_exact-append (length payload) (apply_mask mask 0 payload) rest
              (length-apply_mask mask 0 payload),
          apply_mask_twice mask 0 payload s.mask_bytes s.payload_bytes,
        )
        (checked rest)

  -- A sendable frame that the client's encoder writes, for a limit below 2^63, is read back as it
  -- was, and the reader leaves the stream at the byte after it.
  pub read_client_frame-encode_client_frame :
      maximum < 2 ^ 63
      → (rest : Bytes)
      → read_client_frame is_utf8 maximum (encode_client_frame opcode payload mask ++ rest)
        ≡ ok (record { opcode = opcode; payload = payload }, rest)
  unfolding read_client_frame encode_client_frame
  read_client_frame-encode_client_frame h rest =
      let a = header-Announces (length payload) opcode (omega (arith, s.fits)) in
      let low : opcode < 16 = ground (arith, s.known_opcode) in
      let first : bit_or 128 opcode ≡ 128 + opcode = or_high opcode (omega arith) in
      let plain : (not (nat_beq ((128 + opcode) / 16 % 8) 0)
            || nat_beq ((128 + opcode) / 128 % 2) 0)
          ≡ false =
        ground arith in
      let code : (128 + opcode) % 16 ≡ opcode = omega arith in
      rw
        (
          a.encoded,
          first,
          plain,
          a.masked,
          code,
          s.known_opcode,
          append_assoc a.extension (mask ++ apply_mask mask 0 payload) rest,
          a.announced ((mask ++ apply_mask mask 0 payload) ++ rest),
          append_assoc mask (apply_mask mask 0 payload) rest,
        )
        (body_reads rest)
