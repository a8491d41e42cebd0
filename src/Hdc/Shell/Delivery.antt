-- ===== src/Hdc/Shell/Delivery.antt =====
-- A client of the shell protocol reads the output of the device.
use adb_tcp_bridge.Common.{
  ℕ, zero, suc, ◌+◌, ◌*◌, ◌%◌, ◌^◌, ◌≤◌, ◌<◌, ◌≡◌, refl, sym, ap, subst, ◌∙◌, Bool, true, false,
  not, Option, none, some, List, [], ◌∷◌, ◌++◌, arith, Bytes, ok, err, ltb, ◌==◌, if◌then◌else◌,
  length, take, drop, length-append, length-take, length-drop, take-append-drop, append_assoc,
  append-nil, All,
}
use adb_tcp_bridge.Common.Word.{le_bytes, le_value}
use adb_tcp_bridge.Stream.{Writer, write, new_writer}
use adb_tcp_bridge.Hdc.Channel.Frames.{read_frame-frame_bytes}
use adb_tcp_bridge.Hdc.Channel.Command.{
  sync_chunk_size, channel_read, frames, payloads, work, IsFrame, work≤length-frames,
  read_frame_ends,
}
use adb_tcp_bridge.Hdc.Shell.{
  stdout_id, exit_id, ShellPacket, read_shell_packet, write_shell_packet,
}
use adb_tcp_bridge.Hdc.Shell.Input.{shell_bytes, read_shell_packet-shell_bytes}
use adb_tcp_bridge.Hdc.Shell.Output.{pass_on, copy_output, cut_off, serve_output}

-- The shell protocol's own description of output: stdout packets up to an exit packet, whose payload
-- begins with the exit code; at most k packets.
unfoldable pub read_shell_output : ℕ → Bytes → Option ((Bytes × ℕ) × Bytes)
read_shell_output zero s = none
read_shell_output (suc k) s = elim (read_shell_packet s) [
  | err e ↦ none
  | ok (p, rest) ↦
      if p.stream == exit_id
      then some (([], le_value (take 1 p.payload)), rest)
      else if not (p.stream == stdout_id)
      then none
      else elim (read_shell_output k rest) [
        | none ↦ none
        | some ((output, code), rest') ↦ some ((p.payload ++ output, code), rest')
      ]
]

abbrev stdout_bytes : List Bytes → Bytes
stdout_bytes [] = []
stdout_bytes (c ∷ cs) = shell_bytes (record { stream = stdout_id; payload = c }) ++ stdout_bytes cs

abbrev IsChunk : Bytes → Type 0
IsChunk c = length c ≤ sync_chunk_size

-- The content was written in stdout packets, and the writer takes two writes more.
record Delivered (o content : Bytes) (w : Writer) : Type 0 where
  chunks : List Bytes
  small : All IsChunk chunks
  joined : payloads chunks ≡ content
  packets : w.written ≡ o ++ stdout_bytes chunks
  left : 2 ≤ w.budget

packet_written :
    (stream b n : ℕ) (bs o : Bytes)
    → length (b ∷ bs) ≤ sync_chunk_size
    → write_shell_packet stream (b ∷ bs) (record { written = o; budget = suc (suc n) }) ≡ (
      record {
        written = o ++ shell_bytes (record { stream = stream; payload = b ∷ bs });
        budget = n;
      },
      true,
    )
unfolding write_shell_packet write
packet_written stream b n bs o h =
    let small : length (b ∷ bs) % 2 ^ 32 ≡ length (b ∷ bs) = omega arith in
    let nonempty : (length (b ∷ bs) == 0) ≡ false = ground arith in
    rw (small, nonempty, append_assoc) refl

passed-Delivered :
    (bytes content o : Bytes) (n m : ℕ) (next : Writer → Writer)
    → IsChunk bytes
    → m + length bytes * 2 ≤ n
    → ((o' : Bytes) (n' : ℕ)
        → m ≤ n'
        → Delivered o' content (next (record { written = o'; budget = n' })))
    → Delivered o (bytes ++ content) (pass_on bytes next (record { written = o; budget = n }))
passed-Delivered [] content o n m next c h g = g o n (omega arith)
passed-Delivered (b ∷ bs) content o zero m next c h g = absurd (omega arith)
passed-Delivered (b ∷ bs) content o (suc zero) m next c h g = absurd (omega arith)
passed-Delivered (b ∷ bs) content o (suc (suc n)) m next c h g =
    let packet = shell_bytes (record { stream = stdout_id; payload = b ∷ bs }) in
    let d = g (o ++ packet) n (omega arith) in
    let pos : not (ltb 0 (length (b ∷ bs))) ≡ false = ground arith in
    let now : pass_on (b ∷ bs) next (record { written = o; budget = suc (suc n) })
        ≡ next (record { written = o ++ packet; budget = n }) =
      rw pos (
        ap (λ (r : Writer × Bool). if r.1 then next r.0 else r.0)
          (packet_written stdout_id b n bs o c)) in
    subst (Delivered o ((b ∷ bs) ++ content)) (sym now) (record {
      chunks = (b ∷ bs) ∷ d.chunks;
      small = (c, d.small);
      joined = ap (λ t. (b ∷ bs) ++ t) d.joined;
      packets = d.packets ∙ append_assoc o packet (stdout_bytes d.chunks);
      left = d.left;
    })

take-IsChunk : (bytes : Bytes) → IsChunk (take sync_chunk_size bytes)
take-IsChunk bytes = omega (arith, length-take sync_chunk_size bytes)

split_again :
    (bytes rest : Bytes)
    → take sync_chunk_size bytes ++ (drop sync_chunk_size bytes ++ rest) ≡ bytes ++ rest
split_again bytes rest =
    sym (append_assoc (take sync_chunk_size bytes) (drop sync_chunk_size bytes) rest)
    ∙ ap (λ t. t ++ rest) (take-append-drop sync_chunk_size bytes)

-- A Read of the channel, of at most 64 KiB of some bytes.
round-Delivered :
    (k : ℕ) (bytes o : Bytes) (ps : List Bytes) (n : ℕ)
    → let back = drop sync_chunk_size bytes in
      let next = copy_output k (record { incoming = frames ps; buffered = back }) in
      (length bytes + work ps) * 2 + 2 ≤ n
      → ((o' : Bytes) (n' : ℕ)
          → (length back + work ps) * 2 + 2 ≤ n'
          → Delivered o' (back ++ payloads ps) (next (record { written = o'; budget = n' })))
      → Delivered o
          (bytes ++ payloads ps)
          (pass_on (take sync_chunk_size bytes) next (record { written = o; budget = n }))
round-Delivered k bytes o ps n e g =
    let front = take sync_chunk_size bytes in
    let back = drop sync_chunk_size bytes in
    let next = copy_output k (record { incoming = frames ps; buffered = back }) in
    let w : Writer = record { written = o; budget = n } in
    subst (λ t. Delivered o t (pass_on front next w)) (split_again bytes (payloads ps))
      (passed-Delivered front (back ++ payloads ps) o n ((length back + work ps) * 2 + 2) next
        (take-IsChunk bytes)
        (omega (arith, length-take sync_chunk_size bytes, length-drop sync_chunk_size bytes)) g)

copy_output-Delivered :
    (k : ℕ) (buffered o : Bytes) (ps : List Bytes) (n : ℕ)
    → All IsFrame ps
    → suc (length buffered + work ps) ≤ k
    → (length buffered + work ps) * 2 + 2 ≤ n
    → Delivered o (buffered ++ payloads ps) (
        copy_output k
          (record { incoming = frames ps; buffered = buffered })
          (record { written = o; budget = n }))
unfolding copy_output channel_read
copy_output-Delivered zero buffered o ps n f h e = absurd (omega arith)
copy_output-Delivered (suc k) (b ∷ bs) o ps n f h e = round-Delivered k (b ∷ bs) o ps n e λ o' n' g.
    copy_output-Delivered k (drop sync_chunk_size (b ∷ bs)) o' ps n' f
      (omega (arith, length-drop sync_chunk_size (b ∷ bs))) g
copy_output-Delivered (suc k) [] o [] n f h e =
    rw (read_frame_ends, copy_output)
      (record {
        chunks = [];
        small = tt;
        joined = refl;
        packets = sym (append-nil o);
        left = omega arith;
      })
copy_output-Delivered (suc k) [] o (p ∷ ps) n (f, fs) h e =
    rw (read_frame-frame_bytes p (frames ps) f, copy_output)
      (round-Delivered k p o ps n (omega arith) λ o' n' g.
        copy_output-Delivered k (drop sync_chunk_size p) o' ps n' fs
          (omega (arith, length-drop sync_chunk_size p)) g)

abbrev exit_bytes : Bytes
exit_bytes = shell_bytes (record { stream = exit_id; payload = 0 ∷ 0 ∷ 0 ∷ 0 ∷ [] })

exit_written :
    (o : Bytes) (n : ℕ)
    → 2 ≤ n
    → (write_shell_packet exit_id (le_bytes 4 0) (record { written = o; budget = n })).0.written
      ≡ o ++ exit_bytes
unfolding le_bytes
exit_written o zero h = absurd (omega arith)
exit_written o (suc zero) h = absurd (omega arith)
exit_written o (suc (suc n)) h =
    ap (λ r. r.0.written) (packet_written exit_id 0 n (0 ∷ 0 ∷ 0 ∷ []) o (omega arith))

read_stdout :
    (k : ℕ) (cs : List Bytes) (rest : Bytes)
    → All IsChunk cs
    → length cs < k
    → read_shell_output k (stdout_bytes cs ++ (exit_bytes ++ rest)) ≡ some ((payloads cs, 0), rest)
unfolding read_shell_output
read_stdout zero cs rest f h = absurd (omega arith)
read_stdout (suc k) [] rest f h =
    rw
      (
        read_shell_packet-shell_bytes (record { stream = exit_id; payload = 0 ∷ 0 ∷ 0 ∷ 0 ∷ [] })
            rest (omega arith),
        read_shell_output,
      )
      (unfold le_value in refl)
read_stdout (suc k) (c ∷ cs) rest (f, fs) h =
    let p : ShellPacket = record { stream = stdout_id; payload = c } in
    rw
      (
        append_assoc (shell_bytes p) (stdout_bytes cs) (exit_bytes ++ rest),
        read_shell_packet-shell_bytes p (stdout_bytes cs ++ (exit_bytes ++ rest)) (omega arith),
        read_shell_output,
        read_stdout k cs rest fs (omega arith),
      )
      refl

count-stdout_bytes : (cs : List Bytes) → length cs ≤ length (stdout_bytes cs)
count-stdout_bytes [] = omega arith
count-stdout_bytes (c ∷ cs) = omega (
  arith,
  count-stdout_bytes cs,
  length-append (shell_bytes (record { stream = stdout_id; payload = c })) (stdout_bytes cs),
)

-- The writer that is left by an input side that ends too late to matter.
cut_late :
    (need n : ℕ) (input_ends : Option ℕ)
    → need ≤ n
    → ((m : ℕ) → input_ends ≡ some m → need ≤ m)
    → (cut_off input_ends (new_writer n) ≡ new_writer (cut_off input_ends (new_writer n)).budget)
      × need ≤ (cut_off input_ends (new_writer n)).budget
unfolding cut_off
cut_late need n none h g = (refl, h)
cut_late need n (some m) h g = (refl, omega (arith, h, g m refl))

uncut :
    (ps : List Bytes) (n : ℕ) (rest : Bytes)
    → All IsFrame ps
    → length (frames ps) * 2 + 2 ≤ n
    → let bytes = (serve_output true none (frames ps) (new_writer n)).written ++ rest in
      read_shell_output (suc (length bytes)) bytes ≡ some ((payloads ps, 0), rest)
unfolding serve_output cut_off
uncut ps n rest f h =
    let d =
      copy_output-Delivered (suc (length (frames ps))) [] [] ps n f
        (omega (arith, work≤length-frames ps)) (omega (arith, work≤length-frames ps)) in
    let w : Writer =
      copy_output (suc (length (frames ps))) (record { incoming = frames ps; buffered = [] })
        (new_writer n) in
    let all : (serve_output true none (frames ps) (new_writer n)).written ++ rest
        ≡ stdout_bytes d.chunks ++ (exit_bytes ++ rest) =
      ap (λ t. t ++ rest)
        (exit_written w.written w.budget d.left ∙ ap (λ t. t ++ exit_bytes) d.packets)
      ∙ append_assoc (stdout_bytes d.chunks) exit_bytes rest in
    let bytes : Bytes = stdout_bytes d.chunks ++ (exit_bytes ++ rest) in
    ap (λ t. read_shell_output (suc (length t)) t) all
    ∙ read_stdout (suc (length bytes)) d.chunks rest d.small (
        omega (
          arith,
          count-stdout_bytes d.chunks,
          length-append (stdout_bytes d.chunks) (exit_bytes ++ rest),
        ))
    ∙ ap (λ t. some ((t, 0), rest)) d.joined

-- If the hdc server sends the output of a shell in frames of at most 16 MiB, empty ones among them, and
-- then closes the channel between two frames, the client's end takes two writes for each byte and for
-- each frame and two more, and the input side, whose end closes both ends, does not end before the
-- output side has made that many writes, then a client of the shell protocol v2, given what serveShell
-- writes, reads exactly the output, in order, and the exit code 0, and nothing of what follows.
pub read_shell_output-serve_output :
    (ps : List Bytes) (n : ℕ) (input_ends : Option ℕ) (rest : Bytes)
    → All IsFrame ps
    → length (frames ps) * 2 + 2 ≤ n
    → ((m : ℕ) → input_ends ≡ some m → length (frames ps) * 2 + 2 ≤ m)
    → let bytes = (serve_output true input_ends (frames ps) (new_writer n)).written ++ rest in
      read_shell_output (suc (length bytes)) bytes ≡ some ((payloads ps, 0), rest)
read_shell_output-serve_output ps n input_ends rest f h g =
    let (e, b) = cut_late (length (frames ps) * 2 + 2) n input_ends h g in
    let same : serve_output true input_ends (frames ps) (new_writer n)
        ≡ serve_output true none (frames ps)
            (new_writer (cut_off input_ends (new_writer n)).budget) =
      unfold serve_output cut_off in ap (λ w. serve_output true none (frames ps) w) e in
    ap (λ w. let bytes = w.written ++ rest in read_shell_output (suc (length bytes)) bytes) same
    ∙ uncut ps (cut_off input_ends (new_writer n)).budget rest f b
