-- ===== src/WebSocket/Frame.antt =====
-- `read_client_frame`, `encode_client_frame` and `encode_server_frame` of
-- controller_api/websocket_transport.py. A stream is the bytes that
-- the peer sends until it closes; a byte is a number below 256.
use hermes_ops.Prelude.{
  ℕ, zero, suc, ◌+◌, ◌*◌, ◌/◌, ◌%◌, String, Bool, ◌||◌, List, [], ◌∷◌, ◌++◌, ltb, leb, nat_beq,
  if◌then◌else◌, length, bit_or, bit_xor, not, ◌&&◌, Option, none, some,
}
use hermes_ops.Prelude.Result.{Result, ok, err, ◌>>=◌}

abbrev pub Bytes : Type 0
Bytes = List ℕ

-- EOFError, or a WebSocketProtocolError with its close code.
pub data FrameError : Type 0 where
  eof : FrameError
  protocol : ℕ → String → FrameError

pub record ClientFrame : Type 0 where
  pub opcode : ℕ
  pub payload : Bytes

abbrev pub max_client_frame_bytes : ℕ
max_client_frame_bytes = 65536

unfoldable pub read_exact : ℕ → Bytes → Result FrameError (Bytes × Bytes)
read_exact zero stream = ok ([], stream)
read_exact (suc n) [] = err eof
read_exact (suc n) (b ∷ stream) = elim (read_exact n stream) [
  | ok (bs, rest) ↦ ok (b ∷ bs, rest)
  | err e ↦ err e
]

-- `struct.pack("!H", n)` and `struct.pack("!Q", n)`: k bytes, the highest first
unfoldable pub pack : ℕ → ℕ → Bytes
pack zero n = []
pack (suc k) n = pack k (n / 256) ++ (n % 256) ∷ []

unpack_from : ℕ → Bytes → ℕ
unpack_from acc [] = acc
unpack_from acc (b ∷ bs) = unpack_from (acc * 256 + b) bs

unfoldable pub unpack : Bytes → ℕ
unfolding unpack_from
unpack bs = unpack_from 0 bs

-- `opcode in {0x1, 0x2, 0x8, 0x9, 0xA}`
abbrev pub is_opcode : ℕ → Bool
is_opcode op = nat_beq op 1 || nat_beq op 2 || nat_beq op 8 || nat_beq op 9 || nat_beq op 10

-- `payload[index] ^= mask[index % 4]`, from an index on
abbrev pub mask_byte : Bytes → ℕ → ℕ
mask_byte [] i = 0
mask_byte (m ∷ ms) zero = m
mask_byte (m ∷ ms) (suc i) = mask_byte ms i

unfoldable pub apply_mask : Bytes → ℕ → Bytes → Bytes
apply_mask mask i [] = []
apply_mask mask i (b ∷ bs) = bit_xor b (mask_byte mask (i % 4)) ∷ apply_mask mask (i + 1) bs

abbrev pub first_byte : Bytes → ℕ
first_byte [] = 0
first_byte (b ∷ bs) = b

-- The 16-bit form is for lengths from 126 on.
unfoldable pub length_16 : Bytes × Bytes → Result FrameError (ℕ × Bytes)
unfolding unpack
length_16 (encoded, rest) =
    if ltb (unpack encoded) 126
    then err (protocol 1002 "non-canonical frame length")
    else ok (unpack encoded, rest)

-- The 64-bit form is for lengths from 65536 on; its top bit is 0.
unfoldable pub length_64 : Bytes × Bytes → Result FrameError (ℕ × Bytes)
unfolding unpack
length_64 (encoded, rest) =
    if leb 128 (first_byte encoded)
    then err (protocol 1002 "invalid frame length")
    else if ltb (unpack encoded) 65536
    then err (protocol 1002 "non-canonical frame length")
    else ok (unpack encoded, rest)

-- The length that the second byte announces, with the extended forms.
unfoldable pub read_length : ℕ → Bytes → Result FrameError (ℕ × Bytes)
unfolding read_exact length_16 length_64
read_length short stream =
    if nat_beq short 126
    then read_exact 2 stream >>= length_16
    else if nat_beq short 127
    then read_exact 8 stream >>= length_64
    else ok (short, stream)

-- 1000..1003, 1007..1011 and 3000..4999
abbrev pub is_close_code : ℕ → Bool
is_close_code code =
    leb 1000 code && leb code 1003
    || leb 1007 code && leb code 1011
    || leb 3000 code && leb code 4999

-- The payload of a close frame: empty, or a code and a reason in UTF-8.
unfoldable pub check_close : (Bytes → Bool) → Bytes → Result FrameError (Unit {0})
unfolding unpack
check_close is_utf8 [] = ok tt
check_close is_utf8 (a ∷ []) = err (protocol 1002 "invalid close payload")
check_close is_utf8 (a ∷ b ∷ reason) =
    if not (is_close_code (unpack (a ∷ b ∷ [])))
    then err (protocol 1002 "invalid close code")
    else if is_utf8 reason
    then ok tt
    else err (protocol 1007 "invalid close reason")

unfoldable pub check_payload :
    (Bytes → Bool) → ℕ → Bytes → Bytes → Result FrameError (ClientFrame × Bytes)
unfolding check_close
check_payload is_utf8 opcode payload rest =
    let frame : Result FrameError (ClientFrame × Bytes) =
      ok (record { opcode = opcode; payload = payload }, rest) in
    if nat_beq opcode 8 then (check_close is_utf8 payload >>= λ _. frame) else frame

-- The masking key and the masked payload, whose length is known.
unfoldable pub read_payload :
    (Bytes → Bool) → ℕ → ℕ → ℕ × Bytes → Result FrameError (ClientFrame × Bytes)
unfolding read_exact apply_mask check_payload
read_payload is_utf8 maximum opcode (n, stream) =
    if leb 8 opcode && ltb 125 n
    then err (protocol 1002 "oversized control frame")
    else if ltb maximum n
    then err (protocol 1009 "frame too large")
    else (read_exact 4 stream >>= λ masked. read_exact n masked.1 >>= λ body.
        check_payload is_utf8 opcode (apply_mask masked.0 0 body.0) body.1)

-- The two bytes of the header: FIN, three reserved bits and the opcode; MASK and a short length.
unfoldable pub read_header :
    (Bytes → Bool) → ℕ → Bytes × Bytes → Result FrameError (ClientFrame × Bytes)
unfolding read_length read_payload
read_header is_utf8 maximum (first ∷ second ∷ [], stream) =
    if not (nat_beq (first / 16 % 8) 0) || nat_beq (first / 128 % 2) 0
    then err (protocol 1002 "fragmented or reserved frame")
    else if nat_beq (second / 128 % 2) 0
    then err (protocol 1002 "client frame must be masked")
    else if not (is_opcode (first % 16))
    then err (protocol 1002 "unsupported opcode")
    else read_length (second % 128) stream >>= read_payload is_utf8 maximum (first % 16)
read_header is_utf8 maximum _ = err eof

-- `is_utf8` is what Python's decoder accepts.
unfoldable pub read_client_frame :
    (Bytes → Bool) → ℕ → Bytes → Result FrameError (ClientFrame × Bytes)
unfolding read_exact read_header
read_client_frame is_utf8 maximum stream = read_exact 2 stream >>= read_header is_utf8 maximum

-- The bytes before the payload, with the mask bit (128) or without (0) in the second.
unfoldable pub encode_header : ℕ → ℕ → ℕ → Bytes
unfolding pack
encode_header mask_bit opcode n =
    if ltb n 126
    then bit_or 128 opcode ∷ bit_or mask_bit n ∷ []
    else if leb n 65535
    then bit_or 128 opcode ∷ bit_or mask_bit 126 ∷ pack 2 n
    else bit_or 128 opcode ∷ bit_or mask_bit 127 ∷ pack 8 n

-- The caller gives a mask of four bytes, or it is drawn at random.
unfoldable pub encode_client_frame : ℕ → Bytes → Bytes → Bytes
unfolding encode_header apply_mask
encode_client_frame opcode payload mask =
    encode_header 128 opcode (length payload) ++ (mask ++ apply_mask mask 0 payload)

-- `none` stands for the ValueError at an opcode that no server frame has.
unfoldable pub encode_server_frame : ℕ → Bytes → Option Bytes
unfolding encode_header
encode_server_frame opcode payload =
    if is_opcode opcode then some (encode_header 0 opcode (length payload) ++ payload) else none
