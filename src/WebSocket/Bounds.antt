-- ===== src/WebSocket/Bounds.antt =====
-- What holds of every frame that the reader lets through, whatever the peer sends.
use hermes_ops.Prelude.{
  ℕ, zero, suc, ◌≤◌, ◌≡◌, inl, inr, Bool, true, [], ◌∷◌, arith, leb, nat_beq, length, ◌%◌, subst,
  ◌∙◌,
}
use hermes_ops.Prelude.Result.{Result-cases, ok, ◌>>=◌, bind_ok}
use hermes_ops.WebSocket.Frame.{
  Bytes, ClientFrame, read_exact, is_opcode, check_close, check_payload, apply_mask, read_length,
  read_payload, read_header, read_client_frame,
}
use hermes_ops.WebSocket.Roundtrip.{length-apply_mask}

pub record IsAccepted (is_utf8 : Bytes → Bool) (maximum : ℕ) (frame : ClientFrame) : Type 0 where
  pub known_opcode : is_opcode frame.opcode ≡ true
  pub fits : length frame.payload ≤ maximum
  pub short_control : leb 8 frame.opcode ≡ true → length frame.payload ≤ 125
  pub good_close : nat_beq frame.opcode 8 ≡ true → check_close is_utf8 frame.payload ≡ ok tt

read_exact-length :
    (n : ℕ) (stream bs rest : Bytes) → read_exact n stream ≡ ok (bs, rest) → length bs ≡ n
unfolding read_exact
read_exact-length zero stream bs rest h = ground arith
read_exact-length (suc n) [] bs rest h = cc
read_exact-length (suc n) (b ∷ stream) bs rest h = elim (Result-cases (read_exact n stream)) [
  | inl ((xs, r), e) ↦ ground (arith, read_exact-length n stream xs r e)
  | inr (x, e) ↦ ground arith
]

module _ (is_utf8 : Bytes → Bool) (maximum : ℕ) where
  check_payload-ok :
      (opcode : ℕ) (payload rest rest' : Bytes) (frame : ClientFrame)
      → check_payload is_utf8 opcode payload rest ≡ ok (frame, rest')
      → (record { opcode = opcode; payload = payload } ≡ frame)
        × (nat_beq opcode 8 ≡ true → check_close is_utf8 payload ≡ ok tt)
  unfolding check_payload
  check_payload-ok opcode payload rest rest' frame h =
      elim (Result-cases (check_close is_utf8 payload)) [
        | inl (u, e) ↦ (ground arith, λ c. e)
        | inr (x, e) ↦ (ground arith, λ c. ground arith)
      ]

  read_payload-IsAccepted :
      (opcode n : ℕ) (stream rest : Bytes) (frame : ClientFrame)
      → is_opcode opcode ≡ true
      → read_payload is_utf8 maximum opcode (n, stream) ≡ ok (frame, rest)
      → IsAccepted is_utf8 maximum frame
  unfolding read_payload
  read_payload-IsAccepted opcode n stream rest frame known h =
      let fits : n ≤ maximum = ground arith in
      let short : leb 8 opcode ≡ true → n ≤ 125 = λ c. ground arith in
      let reads : (read_exact 4 stream >>= λ masked. read_exact n masked.1 >>= λ body.
      check_payload is_utf8 opcode (apply_mask masked.0 0 body.0) body.1)
          ≡ ok (frame, rest) =
        ground arith in
      let (masked, e4, reads') = bind_ok (read_exact 4 stream) _ reads in
      let (body, en, checks) = bind_ok (read_exact n masked.1) _ reads' in
      let (same, close) =
        check_payload-ok opcode (apply_mask masked.0 0 body.0) body.1 rest frame checks in
      let len : length (apply_mask masked.0 0 body.0) ≡ n =
        length-apply_mask masked.0 0 body.0 ∙ read_exact-length n masked.1 body.0 body.1 en in
      subst (IsAccepted is_utf8 maximum) same (record {
        known_opcode = known;
        fits = omega arith;
        short_control = λ c. omega (arith, short c);
        good_close = close;
      })

  read_header-IsAccepted :
      (header stream rest : Bytes) (frame : ClientFrame)
      → read_header is_utf8 maximum (header, stream) ≡ ok (frame, rest)
      → IsAccepted is_utf8 maximum frame
  unfolding read_header
  read_header-IsAccepted (first ∷ second ∷ []) stream rest frame h =
      let known : is_opcode (first % 16) ≡ true = ground arith in
      let reads : (read_length (second % 128) stream >>= read_payload is_utf8 maximum (first % 16))
          ≡ ok (frame, rest) =
        ground arith in
      let (sized, el, body) = bind_ok (read_length (second % 128) stream) _ reads in
      read_payload-IsAccepted (first % 16) sized.0 sized.1 rest frame known body
  read_header-IsAccepted _ stream rest frame h = cc

  -- Every frame that the reader returns, whatever bytes the peer sent, has a known opcode, a
  -- payload within the limit, at most 125 bytes if it is a control frame, and, if it closes, a
  -- payload that is empty or a valid code with a reason in UTF-8.
  pub read_client_frame-IsAccepted :
      (stream rest : Bytes) (frame : ClientFrame)
      → read_client_frame is_utf8 maximum stream ≡ ok (frame, rest)
      → IsAccepted is_utf8 maximum frame
  unfolding read_client_frame
  read_client_frame-IsAccepted stream rest frame h =
      let (header, e, reads) = bind_ok (read_exact 2 stream) (read_header is_utf8 maximum) h in
      read_header-IsAccepted header.0 header.1 rest frame reads
