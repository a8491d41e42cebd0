-- ===== src/Hdc/Shell/Input.antt =====
-- The input of a shell: what reaches the hdc server of the packets that the client sent.
use adb_tcp_bridge.Common.{
  ℕ, zero, suc, ◌+◌, ◌≤◌, ◌<◌, ◌≡◌, ◌≢◌, refl, sym, ap, ◌∙◌, inl, inr, Bool, true, false, List, [],
  ◌∷◌, ◌++◌, arith, Bytes, ok, ◌==◌, ==_iff, if◌then◌else◌, if_elim, length, length-append,
  append_assoc, append-nil, All, Result-cases, Bool-cases,
}
use adb_tcp_bridge.Common.Word.{IsU32, le_bytes, le_value, length-le_bytes, le_value-le_bytes}
use adb_tcp_bridge.Stream.{read_full, read_full-append, read_full-splits, Writer, write}
use adb_tcp_bridge.Hdc.Shell.{
  ShellPacket, stdin_id, close_stdin_id, read_payload, read_header, read_shell_packet, InputEnd,
  stdin_closed, write_failed, out_of_fuel, take_packet, copy_input, copy_shell_input,
}

-- A packet on the wire.
abbrev pub shell_bytes : ShellPacket → Bytes
shell_bytes p = (p.stream ∷ le_bytes 4 (length p.payload)) ++ p.payload

abbrev pub all_bytes : List ShellPacket → Bytes
all_bytes [] = []
all_bytes (p ∷ ps) = shell_bytes p ++ all_bytes ps

-- The payloads of the packets that carry input.
abbrev pub input_of : ShellPacket → Bytes
input_of p = if p.stream == stdin_id then p.payload else []

abbrev pub stdin_data : List ShellPacket → Bytes
stdin_data [] = []
stdin_data (p ∷ ps) = input_of p ++ stdin_data ps

-- A packet that does not end the input, and whose length fits its field.
pub record IsInput (p : ShellPacket) : Type 0 where
  pub stays : p.stream ≢ close_stdin_id
  pub fits : IsU32 (length p.payload)

read_payload-append :
    (stream : ℕ) (xs rest : Bytes)
    → read_payload stream (length xs) (xs ++ rest)
      ≡ ok (record { stream = stream; payload = xs }, rest)
unfolding read_payload
read_payload-append stream [] rest = refl
read_payload-append stream (x ∷ xs) rest = rw (read_full-append _ (x ∷ xs) rest refl) (ground arith)

pub read_shell_packet-shell_bytes :
    (p : ShellPacket) (rest : Bytes)
    → IsU32 (length p.payload)
    → read_shell_packet (shell_bytes p ++ rest) ≡ ok (p, rest)
unfolding read_shell_packet read_header
read_shell_packet-shell_bytes p rest h =
    let five : length (p.stream ∷ le_bytes 4 (length p.payload)) ≡ 5 =
      omega (arith, length-le_bytes 4 (length p.payload)) in
    rw
      (
        read_shell_packet,
        append_assoc (p.stream ∷ le_bytes 4 (length p.payload)) p.payload rest,
        read_full-append 5 (p.stream ∷ le_bytes 4 (length p.payload)) (p.payload ++ rest) five,
        le_value-le_bytes 4 (length p.payload) h,
      )
      (read_payload-append p.stream p.payload rest)

abbrev Took : Bytes → Writer → Writer × Bool → Type 0
Took bytes w r =
    (budget : ℕ) × (w.budget ≤ budget + 1)
    × (r ≡ (record { written = w.written ++ bytes; budget = budget }, true))

packet_taken :
    (stream : ℕ) (payload o : Bytes) (n : ℕ)
    → 1 ≤ n
    → let p : ShellPacket = record { stream = stream; payload = payload } in
      let w : Writer = record { written = o; budget = n } in Took (input_of p) w (take_packet p w)
unfolding write
packet_taken stream payload o zero h = absurd (omega arith)
packet_taken stream [] o (suc n) h = elim (Bool-cases (stream == stdin_id)) [
  | inl e ↦ (suc n, omega arith, rw (e, append-nil) refl)
  | inr e ↦ (suc n, omega arith, rw (e, append-nil) refl)
]
packet_taken stream (x ∷ xs) o (suc n) h = elim (Bool-cases (stream == stdin_id)) [
  | inl e ↦ (n, omega arith, rw e (ground arith))
  | inr e ↦ (suc n, omega arith, rw (e, append-nil) refl)
]

copy_input_step :
    (k : ℕ) (s rest : Bytes) (w : Writer) (p : ShellPacket)
    → read_shell_packet s ≡ ok (p, rest)
    → copy_input (suc k) s w ≡ (
        if p.stream == close_stdin_id
        then (w, (rest, stdin_closed))
        else if (take_packet p w).1
        then copy_input k rest (take_packet p w).0
        else ((take_packet p w).0, (rest, write_failed)))
unfolding copy_input
copy_input_step k s rest w p e = rw (e, copy_input) refl

-- The outcome of a loop that passed all its input on and then met the end.
Passed : Bytes → Bytes → Writer → Writer × (Bytes × InputEnd) → Type 0
Passed input rest w r = (r.0.written ≡ w.written ++ input) × (r.1 ≡ (rest, stdin_closed))

copy_input-packets :
    (ps : List ShellPacket) (close : Bytes) (k : ℕ) (rest : Bytes) (w : Writer)
    → IsU32 (length close)
    → All IsInput ps
    → length ps < k
    → length ps ≤ w.budget
    → let last : ShellPacket = record { stream = close_stdin_id; payload = close } in
      Passed (stdin_data ps) rest w (copy_input k (all_bytes ps ++ (shell_bytes last ++ rest)) w)
unfolding Passed
copy_input-packets ps close zero rest w c a f b = absurd (omega arith)
copy_input-packets [] close (suc k) rest w c a f b =
    let last : ShellPacket = record { stream = close_stdin_id; payload = close } in
    let e = copy_input_step k _ rest w last (read_shell_packet-shell_bytes last rest c) in
    (ap (λ r. r.0.written) e ∙ sym (append-nil w.written), ap (λ r. r.1) e)
copy_input-packets (p ∷ ps) close (suc k) rest w c a f b =
    let last : ShellPacket = record { stream = close_stdin_id; payload = close } in
    let more : Bytes = all_bytes ps ++ (shell_bytes last ++ rest) in
    let stays : (p.stream == close_stdin_id) ≡ false =
      ground (arith, a.0.stays, ==_iff p.stream close_stdin_id) in
    let (n, l, t) = packet_taken p.stream p.payload w.written w.budget (omega arith) in
    let w' : Writer = record { written = w.written ++ input_of p; budget = n } in
    let (g, r) = copy_input-packets ps close k rest w' c a.1 (omega arith) (omega arith) in
    let e : copy_input (suc k) (all_bytes (p ∷ ps) ++ (shell_bytes last ++ rest)) w
        ≡ copy_input k more w' =
      ap (λ s. copy_input (suc k) s w)
        (append_assoc (shell_bytes p) (all_bytes ps) (shell_bytes last ++ rest))
      ∙ copy_input_step k _ more w p (read_shell_packet-shell_bytes p more a.0.fits)
      ∙ rw (stays, t) refl in
    (
      ap (λ r. r.0.written) e ∙ g ∙ append_assoc w.written (input_of p) (stdin_data ps),
      ap (λ r. r.1) e ∙ r,
    )

length-all_bytes : (ps : List ShellPacket) → length ps ≤ length (all_bytes ps)
length-all_bytes [] = omega arith
length-all_bytes (p ∷ ps) =
    omega (arith, length-all_bytes ps, length-append (shell_bytes p) (all_bytes ps))

-- If the client sends packets that do not close the input, and then one that does, each with a payload
-- of less than 4 GiB, and the server takes as many writes as there are packets, then copyShellV2Input
-- ends without an error, the server has got exactly the payloads of the input packets, in order, and
-- nothing that follows the closing packet was read.
pub copy_shell_input-packets :
    (ps : List ShellPacket) (close rest : Bytes) (w : Writer)
    → All IsInput ps
    → IsU32 (length close)
    → length ps ≤ w.budget
    → let last : ShellPacket = record { stream = close_stdin_id; payload = close } in
      let (w', r) = copy_shell_input (all_bytes ps ++ (shell_bytes last ++ rest)) w in
      (w'.written ≡ w.written ++ stdin_data ps) × (r ≡ (rest, stdin_closed))
unfolding Passed
copy_shell_input-packets ps close rest w a c b =
    let last : ShellPacket = record { stream = close_stdin_id; payload = close } in
    copy_input-packets ps close _ rest w c a
      (omega (arith, length-all_bytes ps, length-append (all_bytes ps) (shell_bytes last ++ rest)))
      b

read_payload-shorter :
    (stream n : ℕ) (s rest : Bytes) (p : ShellPacket)
    → read_payload stream n s ≡ ok (p, rest)
    → length rest ≤ length s
unfolding read_payload
read_payload-shorter stream n s rest p e = elim (Result-cases (read_full n s)) [
  | inl ((xs, ys), r) ↦
      let (split, _) = read_full-splits n s xs ys r in
      ground (arith, e, r, ap length split, length-append xs ys)
  | inr (x, r) ↦ ground (arith, e, r)
]

read_header-shorter :
    (header s rest : Bytes) (p : ShellPacket)
    → read_header header s ≡ ok (p, rest)
    → length rest ≤ length s
unfolding read_header
read_header-shorter [] s rest p e = ground arith
read_header-shorter (b ∷ bs) s rest p e = read_payload-shorter b (le_value bs) s rest p e

read_shell_packet-shorter :
    (s rest : Bytes) (p : ShellPacket) → read_shell_packet s ≡ ok (p, rest) → length rest < length s
read_shell_packet-shorter s rest p e =
    unfold read_shell_packet in
    elim (Result-cases (read_full 5 s)) [
      | inl ((header, body), r) ↦
          let (split, n) = read_full-splits 5 s header body r in
          let h = read_header-shorter header body rest p (rw (r, read_shell_packet) at e) in
          omega (arith, h, ap length split, length-append header body, n)
      | inr (x, r) ↦ absurd (let z = (rw (r, read_shell_packet) at e) in cc z)
    ]

copy_input_ends :
    (k : ℕ) (s : Bytes) (w : Writer) → length s < k → (copy_input k s w).1.1 ≢ out_of_fuel
copy_input_ends zero s w h = absurd (omega arith)
copy_input_ends (suc k) s w h = elim (Result-cases (read_shell_packet s)) [
  | inl ((p, rest), e) ↦
      let ih =
        copy_input_ends k rest (take_packet p w).0
          (omega (arith, read_shell_packet-shorter s rest p e)) in
      rw (copy_input_step k s rest w p e) (
        if_elim (λ (r : Writer × (Bytes × InputEnd)). r.1.1 ≢ out_of_fuel)
          (p.stream == close_stdin_id) (λ _. λ z. cc z)
          (λ _.
            if_elim (λ (r : Writer × (Bytes × InputEnd)). r.1.1 ≢ out_of_fuel) (take_packet p w).1
              (λ _. ih) (λ _. λ z. cc z)))
  | inr (x, e) ↦ unfold copy_input in rw (e, copy_input) (λ z. cc z)
]

-- On any input copyShellV2Input ends for a reason of its own: one round for each byte, and one more,
-- are enough.
pub copy_shell_input_ends : (s : Bytes) (w : Writer) → (copy_shell_input s w).1.1 ≢ out_of_fuel
copy_shell_input_ends s w = copy_input_ends (suc (length s)) s w (omega arith)
