-- ===== src/Hdc/Channel/Frames.antt =====
-- The frames and commands of a channel, read back, and the messages of its opening.
use adb_tcp_bridge.Common.{
  ℕ, zero, suc, ◌+◌, ◌-◌, ◌%◌, ◌^◌, ◌≤◌, ◌<◌, ◌≡◌, refl, ap, ◌∙◌, Bool, true, false, some, [], ◌∷◌,
  ◌++◌, arith, Bytes, ok, ltb, length, take, replicate, length-append, length-take,
  length-replicate, take-append, drop-append, append_assoc,
}
use adb_tcp_bridge.Common.Word.{
  be_bytes, be_value-be_bytes, length-be_bytes, le_bytes, le_value-le_bytes, length-le_bytes,
}
use adb_tcp_bridge.Stream.{read_full-append, Writer, write, new_writer}
use adb_tcp_bridge.Hdc.Channel.{
  max_frame_size, read_content, read_frame, write_frame, split_command, read_command, write_command,
  Socket, Opened, channel, open_channel, handshake_read, handshake_response, handshake_size,
  connect_key_offset, connect_key_size, is_handshake, command_sent, response_sent,
}

-- The bytes of a frame.
abbrev pub frame_bytes : Bytes → Bytes
frame_bytes payload = be_bytes (length payload) ++ payload

-- A writer after two writes at most.
abbrev Wrote : Bytes → Writer → Writer × Bool → Type 0
Wrote bytes w r =
    (budget : ℕ) × (w.budget ≤ budget + 2)
    × (r ≡ (record { written = w.written ++ bytes; budget = budget }, true))

frame_written :
    (payload o : Bytes) (n : ℕ)
    → length payload ≤ max_frame_size
    → 2 ≤ n
    → let w : Writer = record { written = o; budget = n } in
      Wrote (frame_bytes payload) w (write_frame payload w)
unfolding write_frame write be_bytes
frame_written payload o zero fits h = absurd (omega arith)
frame_written payload o (suc zero) fits h = absurd (omega arith)
frame_written [] o (suc (suc n)) fits h = (suc n, omega arith, refl)
frame_written (b ∷ bs) o (suc (suc n)) fits h =
    let small : length (b ∷ bs) % 2 ^ 32 ≡ length (b ∷ bs) = omega arith in
    (n, omega arith, rw (small, append_assoc) (ground arith))

write_frame-Wrote :
    (payload : Bytes) (w : Writer)
    → length payload ≤ max_frame_size
    → 2 ≤ w.budget
    → Wrote (frame_bytes payload) w (write_frame payload w)
write_frame-Wrote payload w = frame_written payload w.written w.budget

read_content-append :
    (xs ys : Bytes) → length xs ≤ max_frame_size → read_content (length xs) (xs ++ ys) ≡ ok (xs, ys)
unfolding read_content
read_content-append [] ys h = refl
read_content-append (x ∷ xs) ys h = rw (read_full-append _ (x ∷ xs) ys refl) (ground arith)

pub read_frame-frame_bytes :
    (payload rest : Bytes)
    → length payload ≤ max_frame_size
    → read_frame (frame_bytes payload ++ rest) ≡ ok (payload, rest)
unfolding read_frame
read_frame-frame_bytes payload rest h =
    rw
      (
        append_assoc,
        read_frame,
        read_full-append 4 (be_bytes (length payload)) (payload ++ rest) (length-be_bytes _),
        be_value-be_bytes (length payload) (omega arith),
      )
      (read_content-append payload rest h)

split_command-le_bytes :
    (command : ℕ) (payload rest : Bytes)
    → command < 2 ^ 16
    → split_command (le_bytes 2 command ++ payload) rest ≡ ok ((command, payload), rest)
unfolding split_command
split_command-le_bytes command payload rest c =
    rw
      (
        take-append 2 (le_bytes 2 command) payload (length-le_bytes 2 command),
        drop-append 2 (le_bytes 2 command) payload (length-le_bytes 2 command),
        le_value-le_bytes 2 command (omega arith),
      )
      (ground (arith, length-append (le_bytes 2 command) payload, length-le_bytes 2 command))

-- A command of 16 bits with a payload of at most 16 MiB less two bytes, written to a writer that takes
-- two writes, is written without an error, and what was written is read back as that command and
-- payload, up to whatever follows.
pub read_command-write_command :
    (command : ℕ) (payload rest : Bytes) (n : ℕ)
    → command < 2 ^ 16
    → length payload + 2 ≤ max_frame_size
    → 2 ≤ n
    → ((write_command command payload (new_writer n)).1 ≡ true)
      × (read_command ((write_command command payload (new_writer n)).0.written ++ rest)
          ≡ ok ((command, payload), rest))
unfolding write_command read_command
read_command-write_command command payload rest n c fits h =
    let size : length (le_bytes 2 command ++ payload) ≡ 2 + length payload =
      omega (arith, length-append (le_bytes 2 command) payload, length-le_bytes 2 command) in
    let (_, _, w) =
      write_frame-Wrote (le_bytes 2 command ++ payload) (new_writer n) (omega arith) h in
    (
      rw w refl,
      rw
          (
            w,
            read_command,
            read_frame-frame_bytes (le_bytes 2 command ++ payload) rest (omega arith),
          )
          (split_command-le_bytes command payload rest c),
    )

length-handshake_response :
    (serial frame : Bytes)
    → handshake_size ≤ length frame
    → length serial ≤ connect_key_size
    → length (handshake_response serial frame) ≡ handshake_size
unfolding handshake_response
length-handshake_response serial frame f h = omega (
  arith,
  length-append (take connect_key_offset frame)
      (serial ++ replicate (connect_key_size - length serial) 0),
  length-append serial (replicate (connect_key_size - length serial) 0),
  length-replicate {A = ℕ} (connect_key_size - length serial) 0,
  length-take connect_key_offset frame,
)

abbrev Greeted : Bytes → Bytes → Bytes → Socket → Opened → Type 0
Greeted response command rest s r =
    (s' : Socket) × (r ≡ channel s')
    × (s'.incoming ≡ rest)
    × (s'.is_open ≡ s.is_open)
    × (s'.outgoing.written ≡ s.outgoing.written ++ (frame_bytes response ++ frame_bytes command))

response_sent-Greeted :
    (response command : Bytes) (s : Socket)
    → length response ≤ max_frame_size
    → length command ≤ max_frame_size
    → 4 ≤ s.outgoing.budget
    → Greeted response command s.incoming s
        (response_sent command s (write_frame response s.outgoing))
response_sent-Greeted response command s fits c b =
    let (n, l, e) = write_frame-Wrote response s.outgoing fits (omega arith) in
    let w : Writer = record { written = s.outgoing.written ++ frame_bytes response; budget = n } in
    let (m, _, f) = write_frame-Wrote command w c (omega arith) in
    (
      record s { outgoing = record { written = w.written ++ frame_bytes command; budget = m } },
      ap (response_sent command s) e ∙ ap (command_sent (record s { outgoing = w })) f,
      refl,
      refl,
      append_assoc s.outgoing.written (frame_bytes response) (frame_bytes command),
    )

open_channel_step :
    (serial command frame rest : Bytes) (s : Socket)
    → s.incoming ≡ frame_bytes frame ++ rest
    → is_handshake frame ≡ true
    → length frame ≤ max_frame_size
    → length serial ≤ connect_key_size
    → open_channel (some s) serial command
      ≡ response_sent command
          (record s { incoming = rest })
          (write_frame (handshake_response serial frame) s.outgoing)
unfolding open_channel handshake_read
open_channel_step serial command frame rest s i g fits k =
    let e : read_frame s.incoming ≡ ok (frame, rest) =
      ap read_frame i ∙ read_frame-frame_bytes frame rest fits in
    let short : ltb connect_key_size (length serial) ≡ false = ground arith in
    rw (e, open_channel) (rw (g, short) refl)

-- A server that sends a handshake frame, at most 16 MiB long, and a serial of at most 32 bytes: if the
-- connection takes four writes, openChannel returns it open, past the handshake, having written two
-- frames, the response and the command. The response is 44 bytes: the first 12 of the handshake, the
-- serial, and zeros.
pub open_channel-handshake :
    (serial command frame rest : Bytes) (s : Socket)
    → s.incoming ≡ frame_bytes frame ++ rest
    → is_handshake frame ≡ true
    → length frame ≤ max_frame_size
    → length serial ≤ connect_key_size
    → length command ≤ max_frame_size
    → 4 ≤ s.outgoing.budget
    → let response =
        take connect_key_offset frame
        ++ (serial ++ replicate (connect_key_size - length serial) 0) in
      (length response ≡ handshake_size)
      × ((s' : Socket) × (open_channel (some s) serial command ≡ channel s')
          × (s'.incoming ≡ rest)
          × (s'.is_open ≡ s.is_open)
          × (s'.outgoing.written
              ≡ s.outgoing.written ++ (frame_bytes response ++ frame_bytes command)))
unfolding handshake_response
open_channel-handshake serial command frame rest s i g fits k c b =
    let size : length (handshake_response serial frame) ≡ handshake_size =
      length-handshake_response serial frame (ground (arith, g)) k in
    let (s', e, p, q, r) =
      response_sent-Greeted (handshake_response serial frame) command (record s { incoming = rest })
        (omega arith) c b in
    (size, (s', open_channel_step serial command frame rest s i g fits k ∙ e, p, q, r))
