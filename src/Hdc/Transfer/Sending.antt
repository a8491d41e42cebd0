-- ===== src/Hdc/Transfer/Sending.antt =====
-- The frames of a file transfer, and the close that ends each.
use adb_tcp_bridge.Common.{
  ℕ, zero, suc, ◌+◌, ◌-◌, ◌*◌, ◌%◌, ◌^◌, ◌≤◌, ◌<◌, ◌≡◌, refl, sym, ap, subst, ◌∙◌, inl, inr, Bool,
  true, false, Option, none, some, List, [], ◌∷◌, ◌++◌, arith, Bytes, ok, ltb, ◌==◌, ==_refl,
  if◌then◌else◌, length, append_assoc, Bool-cases,
}
use adb_tcp_bridge.Common.Word.{be_bytes, le_bytes}
use adb_tcp_bridge.Stream.{Writer, write}
use adb_tcp_bridge.Hdc.Channel.{Socket, read_command, write_frame, write_command}
use adb_tcp_bridge.Hdc.Transfer.{encode_transfer_config, encode_transfer_payload}
use adb_tcp_bridge.Hdc.Transfer.Push.{
  LocalFile, Ended, write_failed, kernel_channel_close, kernel_wakeup_slave_task, file_init,
  file_check, file_begin, file_data, file_finish, send, hang_up, abort, send_then, expect,
  send_close, wants_ack, acknowledge, chunks_sent, send_chunks, transfer,
}

-- The frame of a command, whose length is a uint32.
abbrev pub command_bytes : ℕ → Bytes → Bytes
command_bytes command payload =
    be_bytes (length (le_bytes 2 command ++ payload) % 2 ^ 32) ++ (le_bytes 2 command ++ payload)

abbrev pub at : Bytes → Bytes → ℕ → Bool → Socket
at inc o n up = record {
  incoming = inc;
  outgoing = record { written = o; budget = n };
  is_open = up;
}

frame_lem :
    (b n : ℕ) (bs o : Bytes)
    → write_frame (b ∷ bs) (record { written = o; budget = suc (suc n) }) ≡ (
      record { written = o ++ (be_bytes (length (b ∷ bs) % 2 ^ 32) ++ (b ∷ bs)); budget = n },
      true,
    )
unfolding write_frame write
frame_lem b n bs o =
    let nonempty : (length (b ∷ bs) == 0) ≡ false = ground arith in rw (nonempty, append_assoc) refl

pub send_lem :
    (command : ℕ) (payload inc o : Bytes) (n : ℕ) (up : Bool)
    → send command payload (at inc o (suc (suc n)) up)
      ≡ (at inc (o ++ command_bytes command payload) n up, true)
unfolding write_command le_bytes
send_lem command payload inc o n up =
    ap (λ (r : Writer × Bool). (record { incoming = inc; outgoing = r.0; is_open = up }, r.1))
      (frame_lem _ n _ o)

pub send_then_lem :
    (command : ℕ) (payload inc o : Bytes) (n : ℕ) (up : Bool) (k : Socket → Ended)
    → 2 ≤ n
    → send_then command payload (at inc o n up) k
      ≡ k (at inc (o ++ command_bytes command payload) (n - 2) up)
unfolding send_then
send_then_lem command payload inc o zero up k h = absurd (omega arith)
send_then_lem command payload inc o (suc zero) up k h = absurd (omega arith)
send_then_lem command payload inc o (suc (suc n)) up k h =
    let left : n ≡ suc (suc n) - 2 = omega arith in
    ap (λ (r : Socket × Bool). if r.1 then k r.0 else abort write_failed r.0)
      (send_lem command payload inc o n up)
    ∙ ap (λ m. k (at inc (o ++ command_bytes command payload) m up)) left

expect_lem :
    (wanted : ℕ) (payload inc rest o : Bytes) (n : ℕ) (up : Bool) (k : Bytes → Socket → Ended)
    → read_command inc ≡ ok ((wanted, payload), rest)
    → expect wanted (at inc o n up) k ≡ k payload (at rest o n up)
unfolding expect
expect_lem wanted payload inc rest o n up k e = rw (e, expect, ==_refl wanted) refl

abbrev pub close_bytes : Bytes
close_bytes = command_bytes kernel_channel_close (1 ∷ [])

-- The frames of the chunks, each with its offset in the file.
abbrev pub data_bytes : ℕ → List Bytes → Bytes
data_bytes index [] = []
data_bytes index ([] ∷ cs) = data_bytes index cs
data_bytes index ((b ∷ bs) ∷ cs) =
    command_bytes file_data (encode_transfer_payload index (b ∷ bs))
    ++ data_bytes (index + length (b ∷ bs)) cs

abbrev pub total : List Bytes → ℕ
total [] = 0
total (c ∷ cs) = length c + total cs

abbrev pub end_bytes : Bytes → Bytes
end_bytes reply =
    (if wants_ack reply then command_bytes file_finish (0 ∷ []) else []) ++ close_bytes

-- The dialogue ended well, having written these bytes, and hung up.
pub record Sent (o bytes : Bytes) (r : Ended) : Type 0 where
  pub no_error : r.1 ≡ none
  pub hung_up : r.0.is_open ≡ false
  pub bytes_written : r.0.outgoing.written ≡ o ++ bytes

Sent-after : (o a b : Bytes) (r : Ended) → Sent (o ++ a) b r → Sent o (a ++ b) r
Sent-after o a b r s = record {
  no_error = s.no_error;
  hung_up = s.hung_up;
  bytes_written = s.bytes_written ∙ append_assoc o a b;
}

send_then-Sent :
    (command : ℕ) (payload b inc o : Bytes) (n : ℕ) (k : Socket → Ended)
    → 2 ≤ n
    → ((o' : Bytes) → Sent o' b (k (at inc o' (n - 2) true)))
    → Sent o (command_bytes command payload ++ b) (send_then command payload (at inc o n true) k)
send_then-Sent command payload b inc o n k h g =
    rw (send_then_lem command payload inc o n true k h)
      (Sent-after o (command_bytes command payload) b _ (g (o ++ command_bytes command payload)))

send_close-Sent :
    (inc o : Bytes) (n : ℕ) → 2 ≤ n → Sent o close_bytes (send_close (at inc o n true))
unfolding send_close
send_close-Sent inc o zero h = absurd (omega arith)
send_close-Sent inc o (suc zero) h = absurd (omega arith)
send_close-Sent inc o (suc (suc n)) h =
    subst
      (λ (r : Socket × Bool).
        Sent o close_bytes (hang_up r.0 (if r.1 then none else some write_failed)))
      (sym (send_lem kernel_channel_close (1 ∷ []) inc o n true))
      (record { no_error = refl; hung_up = refl; bytes_written = refl })

acknowledge-Sent :
    (reply inc o : Bytes) (n : ℕ)
    → 4 ≤ n
    → Sent o (end_bytes reply) (acknowledge reply (at inc o n true))
unfolding acknowledge
acknowledge-Sent reply inc o n h = elim (Bool-cases (wants_ack reply)) [
  | inl e ↦
      rw (e, acknowledge)
        (send_then-Sent file_finish (0 ∷ []) close_bytes inc o n send_close (omega arith)
          λ o'. send_close-Sent inc o' (n - 2) (omega arith))
  | inr e ↦ rw (e, acknowledge) (send_close-Sent inc o n (omega arith))
]

send_chunks-Sent :
    (index : ℕ) (cs : List Bytes) (reply inc rest o : Bytes) (n : ℕ)
    → read_command inc ≡ ok ((file_finish, reply), rest)
    → index + total cs < 2 ^ 64
    → length cs * 2 + 4 ≤ n
    → Sent o (data_bytes index cs ++ end_bytes reply) (send_chunks index cs none (at inc o n true))
unfolding send_chunks chunks_sent
send_chunks-Sent index [] reply inc rest o n e t h =
    rw (expect_lem file_finish reply inc rest o n true acknowledge e)
      (acknowledge-Sent reply rest o n (omega arith))
send_chunks-Sent index ([] ∷ cs) reply inc rest o n e t h =
    send_chunks-Sent index cs reply inc rest o n e (omega arith) (omega arith)
send_chunks-Sent index ((b ∷ bs) ∷ cs) reply inc rest o n e t h =
    let pos : ltb 0 (length (b ∷ bs)) ≡ true = ground arith in
    let next : (index + length (b ∷ bs)) % 2 ^ 64 ≡ index + length (b ∷ bs) = omega arith in
    rw (pos, send_chunks, next)
      (rw (append_assoc (command_bytes file_data (encode_transfer_payload index (b ∷ bs))) _ _) (
        send_then-Sent file_data (encode_transfer_payload index (b ∷ bs))
          (data_bytes (index + length (b ∷ bs)) cs ++ end_bytes reply) inc o n
          (λ s'. send_chunks (index + length (b ∷ bs)) cs none s') (omega arith)
          λ o'.
            send_chunks-Sent (index + length (b ∷ bs)) cs reply inc rest o' (n - 2) e (omega arith)
              (omega arith)))

-- The frames of a whole transfer.
abbrev pub transfer_bytes : LocalFile → Bytes → Bytes → Bytes → Bytes
transfer_bytes file base remote reply =
    command_bytes kernel_wakeup_slave_task []
    ++ (command_bytes file_check (encode_transfer_config file.size remote base file.mtime)
        ++ (data_bytes 0 file.chunks ++ end_bytes reply))

-- If the server answers with FileInit, FileBegin and FileFinish, the file's Reads give less than 2 ^ 64
-- bytes up to EOF, and the connection takes two writes for each Read and eight more, then a transfer
-- succeeds and hangs up, and it has written exactly the wake-up, the check with the file's
-- configuration, one frame for each Read that gave something, at that Read's offset in the file,
-- the acknowledgement if the reply asks for one, and the close.
pub transfer-Sent :
    (file : LocalFile) (base remote init begin reply inc inc₁ inc₂ rest o : Bytes) (n : ℕ)
    → read_command inc ≡ ok ((file_init, init), inc₁)
    → read_command inc₁ ≡ ok ((file_begin, begin), inc₂)
    → read_command inc₂ ≡ ok ((file_finish, reply), rest)
    → file.ended ≡ none
    → total file.chunks < 2 ^ 64
    → length file.chunks * 2 + 8 ≤ n
    → Sent o (transfer_bytes file base remote reply) (
        transfer file base remote (record {
          incoming = inc;
          outgoing = record { written = o; budget = n };
          is_open = true;
        }))
unfolding transfer
transfer-Sent file base remote init begin reply inc inc₁ inc₂ rest o n e e₁ e₂ f t h =
    let config = encode_transfer_config file.size remote base file.mtime in
    let chunks = λ (ended : Option Bytes) (s : Socket). send_chunks 0 file.chunks ended s in
    let checked = λ (s : Socket). expect file_begin s λ _ s'. chunks file.ended s' in
    let tail = data_bytes 0 file.chunks ++ end_bytes reply in
    rw (expect_lem file_init init inc inc₁ o n true _ e) (
      send_then-Sent kernel_wakeup_slave_task [] (command_bytes file_check config ++ tail) inc₁ o n
        (λ s. send_then file_check config s checked) (omega arith)
        λ o₁. send_then-Sent file_check config tail inc₁ o₁ (n - 2) checked (omega arith) λ o₂.
          rw (expect_lem file_begin begin inc₁ inc₂ o₂ (n - 2 - 2) true _ e₁) (
            subst (λ x. Sent o₂ tail (chunks x (at inc₂ o₂ (n - 2 - 2) true))) (sym f)
              (send_chunks-Sent 0 file.chunks reply inc₂ rest o₂ (n - 2 - 2) e₂ (omega (arith, t))
                (omega arith))))
