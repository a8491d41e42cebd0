-- ===== src/Hdc/Transfer/Closing.antt =====
-- Whatever a server answers, a file transfer ends with the close command.
use adb_tcp_bridge.Common.{
  ℕ, zero, suc, ◌+◌, ◌-◌, ◌*◌, ◌%◌, ◌^◌, ◌≤◌, ◌≡◌, refl, sym, ap, subst, ◌∙◌, inl, inr, Bool, true,
  false, Option, none, some, List, [], ◌∷◌, ◌++◌, arith, Bytes, ltb, ◌==◌, if◌then◌else◌, length,
  append_assoc, Result-cases, if_elim,
}
use adb_tcp_bridge.Hdc.Channel.{Socket, read_command}
use adb_tcp_bridge.Hdc.Transfer.{encode_transfer_config, encode_transfer_payload}
use adb_tcp_bridge.Hdc.Transfer.Push.{
  LocalFile, Ended, PushError, write_failed, read_failed, unexpected_command, local_failed,
  kernel_channel_close, kernel_wakeup_slave_task, file_init, file_check, file_begin, file_data,
  file_finish, send, hang_up, abort, send_then, expect, send_close, wants_ack, acknowledge,
  chunks_sent, send_chunks, transfer,
}
use adb_tcp_bridge.Hdc.Transfer.Sending.{at, command_bytes, close_bytes, send_lem, send_then_lem}

-- The dialogue hung up after the close, which is the last that it wrote.
pub record Closed (o : Bytes) (r : Ended) : Type 0 where
  pub hung_up : r.0.is_open ≡ false
  pub before : Bytes
  pub close_is_last : r.0.outgoing.written ≡ o ++ (before ++ close_bytes)

Closed-after : (o a : Bytes) (r : Ended) → Closed (o ++ a) r → Closed o r
Closed-after o a r c = record {
  hung_up = c.hung_up;
  before = a ++ c.before;
  close_is_last =
      c.close_is_last
      ∙ append_assoc o a (c.before ++ close_bytes)
      ∙ ap (λ t. o ++ t) (sym (append_assoc a c.before close_bytes));
}

-- Writing the close and hanging up, whatever error is given.
hang_up-Closed :
    (inc o : Bytes) (n : ℕ) (g : Bool → Option PushError)
    → 2 ≤ n
    → Closed o (let r = send kernel_channel_close (1 ∷ []) (at inc o n true) in hang_up r.0 (g r.1))
hang_up-Closed inc o zero g h = absurd (omega arith)
hang_up-Closed inc o (suc zero) g h = absurd (omega arith)
hang_up-Closed inc o (suc (suc n)) g h =
    subst (λ (r : Socket × Bool). Closed o (hang_up r.0 (g r.1)))
      (sym (send_lem kernel_channel_close (1 ∷ []) inc o n true))
      (record { hung_up = refl; before = []; close_is_last = refl })

abort-Closed :
    (e : PushError) (inc o : Bytes) (n : ℕ) → 2 ≤ n → Closed o (abort e (at inc o n true))
unfolding abort
abort-Closed e inc o n h = hang_up-Closed inc o n (λ _. some e) h

send_then-Closed :
    (command : ℕ) (payload inc o : Bytes) (n : ℕ) (k : Socket → Ended)
    → 2 ≤ n
    → ((o' : Bytes) → Closed o' (k (at inc o' (n - 2) true)))
    → Closed o (send_then command payload (at inc o n true) k)
send_then-Closed command payload inc o n k h g =
    rw (send_then_lem command payload inc o n true k h)
      (Closed-after o (command_bytes command payload) _ (g (o ++ command_bytes command payload)))

expect-Closed :
    (wanted : ℕ) (inc o : Bytes) (n : ℕ) (k : Bytes → Socket → Ended)
    → 2 ≤ n
    → ((payload rest : Bytes) → Closed o (k payload (at rest o n true)))
    → Closed o (expect wanted (at inc o n true) k)
expect-Closed wanted inc o n k h g =
    unfold expect in
    elim (Result-cases (read_command inc)) [
      | inr (e, p) ↦ rw (p, expect) (abort-Closed (read_failed e) inc o n h)
      | inl (((command, payload), rest), p) ↦
          rw (p, expect)
            (if_elim (λ r. Closed o r) (command == wanted) (λ _. g payload rest)
              (λ _. abort-Closed (unexpected_command command) rest o n h))
    ]

acknowledge-Closed :
    (reply inc o : Bytes) (n : ℕ) → 4 ≤ n → Closed o (acknowledge reply (at inc o n true))
unfolding acknowledge send_close
acknowledge-Closed reply inc o n h =
    let end = λ (o' : Bytes) (m : ℕ) (p : 2 ≤ m).
      hang_up-Closed inc o' m (λ b. if b then none else some write_failed) p in
    if_elim (λ r. Closed o r) (wants_ack reply)
      (λ _.
        send_then-Closed file_finish (0 ∷ []) inc o n send_close (omega arith)
          λ o'. end o' (n - 2) (omega arith))
      (λ _. end o n (omega arith))

send_chunks-Closed :
    (index : ℕ) (cs : List Bytes) (ended : Option Bytes) (inc o : Bytes) (n : ℕ)
    → length cs * 2 + 4 ≤ n
    → Closed o (send_chunks index cs ended (at inc o n true))
unfolding send_chunks chunks_sent
send_chunks-Closed index [] (some e) inc o n h = abort-Closed (local_failed e) inc o n (omega arith)
send_chunks-Closed index [] none inc o n h =
    expect-Closed file_finish inc o n acknowledge (omega arith)
      λ reply rest. acknowledge-Closed reply rest o n (omega arith)
send_chunks-Closed index (c ∷ cs) ended inc o n h =
    let next = (index + length c) % 2 ^ 64 in
    if_elim (λ r. Closed o r) (ltb 0 (length c))
      (λ _.
        send_then-Closed file_data (encode_transfer_payload index c) inc o n
          (λ s'. send_chunks next cs ended s') (omega arith)
          λ o'. send_chunks-Closed next cs ended inc o' (n - 2) (omega arith))
      (λ _. send_chunks-Closed index cs ended inc o n (omega arith))

-- Whatever the server sends, and however the reading of the file ends, a transfer on an open
-- connection that takes two writes for each Read and eight more hangs up, and the last that it has
-- written before is the close command: the task on the device is never left open.
pub transfer-Closed :
    (file : LocalFile) (base remote inc o : Bytes) (n : ℕ)
    → length file.chunks * 2 + 8 ≤ n
    → Closed o (
        transfer file base remote (record {
          incoming = inc;
          outgoing = record { written = o; budget = n };
          is_open = true;
        }))
unfolding transfer
transfer-Closed file base remote inc o n h =
    let config = encode_transfer_config file.size remote base file.mtime in
    let chunks = λ (s : Socket). send_chunks 0 file.chunks file.ended s in
    let checked = λ (s : Socket). expect file_begin s λ _ s'. chunks s' in
    let woken = λ (s : Socket). send_then file_check config s checked in
    expect-Closed file_init inc o n (λ _ s. send_then kernel_wakeup_slave_task [] s woken)
      (omega arith)
      λ _ inc₁. send_then-Closed kernel_wakeup_slave_task [] inc₁ o n woken (omega arith) λ o₁.
        send_then-Closed file_check config inc₁ o₁ (n - 2) checked (omega arith) λ o₂.
          expect-Closed file_begin inc₁ o₂ (n - 2 - 2) (λ _ s. chunks s) (omega arith)
            λ _ inc₂. send_chunks-Closed 0 file.chunks file.ended inc₂ o₂ (n - 2 - 2) (omega arith)
