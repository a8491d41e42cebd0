-- ===== src/Host/Frames.antt =====
-- Length-prefixed frames and FAIL messages, read back.
use adb_tcp_bridge.Common.{
  ℕ, ◌+◌, ◌≤◌, ◌<◌, ◌↔◌, ◌≢◌, ◌≡◌, refl, sym, ap, ◌∙◌, true, false, some, [], ◌++◌, arith, Bytes,
  bytes_eq, ok, err, ltb, if◌then◌else◌, length, take, drop, length-append, length-take,
  take-append, drop-append, append_assoc, append-nil, drop-drop,
}
use mathlib.Core.Bool.{false≢true}
use adb_tcp_bridge.Strconv.{hex4, parse_uint-hex4}
use adb_tcp_bridge.Host.{
  frame_too_large, status_okay, status_fail, max_frame_len, encode_frame, truncate, fail_message,
  has_status, parse_length_prefixed,
}

pub length-hex4 : (n : ℕ) → length (hex4 n) ≡ 4
unfolding hex4
length-hex4 n = refl

module _ (front payload rest : Bytes) where
  abbrev framed : Bytes
  framed = front ++ (hex4 (length payload) ++ (payload ++ rest))

  length-framed : length framed ≡ length front + 4 + length payload + length rest
  length-framed = omega (
    arith,
    length-append front (hex4 (length payload) ++ (payload ++ rest)),
    length-append (hex4 (length payload)) (payload ++ rest),
    length-append payload rest,
    length-hex4 (length payload),
  )

  digits-framed : take 4 (drop (length front) framed) ≡ hex4 (length payload)
  digits-framed =
      ap (take 4) (drop-append (length front) front _ refl)
      ∙ take-append 4 (hex4 (length payload)) (payload ++ rest) (length-hex4 _)

  content-framed : take (length payload) (drop (length front + 4) framed) ≡ payload
  content-framed =
      ap (take (length payload)) (
        sym (drop-drop (length front) 4 framed)
        ∙ ap (drop 4) (drop-append (length front) front _ refl)
        ∙ drop-append 4 (hex4 (length payload)) (payload ++ rest) (length-hex4 _))
      ∙ take-append (length payload) payload rest refl

  -- A frame anywhere in the data is found there.
  parse-framed :
      length payload ≤ max_frame_len → parse_length_prefixed framed (length front) ≡ some payload
  unfolding parse_length_prefixed
  parse-framed h =
      rw (digits-framed, parse_uint-hex4 (length payload) h, content-framed)
        (ground (arith, length-framed))

pub encode_frame_ok :
    (payload frame : Bytes)
    → encode_frame payload ≡ ok frame
    → (length payload ≤ max_frame_len) × (frame ≡ hex4 (length payload) ++ payload)
unfolding encode_frame
encode_frame_ok payload frame h = ground arith

-- A frame that EncodeFrame makes, anywhere in the data, is parsed from its offset to the payload
-- that was encoded, whatever stands before and behind it.
pub parse_length_prefixed-encode_frame :
    (front payload rest frame : Bytes)
    → encode_frame payload ≡ ok frame
    → parse_length_prefixed (front ++ (frame ++ rest)) (length front) ≡ some payload
parse_length_prefixed-encode_frame front payload rest frame h =
    let (fits, e) = encode_frame_ok payload frame h in
    rw (e, append_assoc) (parse-framed front payload rest fits)

-- EncodeFrame refuses exactly the payloads of more than 65535 bytes.
pub encode_frame_refuses :
    (payload : Bytes)
    → (encode_frame payload ≡ err frame_too_large) ↔ (max_frame_len < length payload)
unfolding encode_frame
encode_frame_refuses payload = ground arith

cut-length : (n : ℕ) (xs : Bytes) → length (if ltb n (length xs) then take n xs else xs) ≤ n
cut-length n xs = ground (arith, length-take n xs)

pub truncate-length : (reason : Bytes) → length (truncate reason) ≤ max_frame_len
unfolding truncate
truncate-length reason = cut-length max_frame_len reason

pub has_status-fail :
    (s : Bytes)
    → (has_status (status_fail ++ s) status_fail ≡ true)
      × (has_status (status_fail ++ s) status_okay ≡ false)
unfolding has_status bytes_eq
has_status-fail s = (ground arith, ground arith)

-- Every FAIL message is a valid response: it has the status FAIL and not the status OKAY, and
-- parsing the frame behind the status gives the reason, cut to 65535 bytes.
pub fail_message_readable :
    (reason : Bytes)
    → (has_status (fail_message reason) status_fail ≡ true)
      × (has_status (fail_message reason) status_okay ≡ false)
      × (parse_length_prefixed (fail_message reason) 4 ≡ some (truncate reason))
unfolding fail_message
fail_message_readable reason =
    let (is_fail, not_okay) =
      has_status-fail (hex4 (length (truncate reason)) ++ truncate reason) in
    (
      is_fail,
      not_okay,
      rw (append-nil (truncate reason)) at
          (parse-framed status_fail (truncate reason) [] (truncate-length reason)),
    )

okay_has_status : has_status status_okay status_okay ≡ true
unfolding has_status bytes_eq
okay_has_status = refl

pub fail_message-ne-okay : (reason : Bytes) → fail_message reason ≢ status_okay
fail_message-ne-okay reason e =
    let (_, not_okay, _) = fail_message_readable reason in
    false≢true (sym not_okay ∙ ap (λ r. has_status r status_okay) e ∙ okay_has_status)
