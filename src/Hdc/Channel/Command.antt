-- ===== src/Hdc/Channel/Command.antt =====
-- internal/hdcserver/channel.go: channelConn.Read and runCommand, and makeRemoteDir of
-- file_transfer.go. The loop of runCommand runs on fuel, one for a Read.
use adb_tcp_bridge.Common.{
  ℕ, zero, suc, ◌+◌, ◌≤◌, ◌≡◌, refl, sym, ap, ◌∙◌, Option, none, some, List, [], ◌∷◌, ◌++◌, arith,
  Bytes, length-append, Result, ok, err, length, take, drop, take-append-drop, length-drop,
  append_assoc, append-nil, All,
}
use adb_tcp_bridge.Common.Word.{be_bytes, length-be_bytes}
use adb_tcp_bridge.Stream.{eof, read_full}
use adb_tcp_bridge.Hdc.Channel.{
  Error, read, out_of_fuel, max_frame_size, read_frame, Socket, no_socket, closed_socket, channel,
  open_channel,
}
use adb_tcp_bridge.Hdc.Channel.Frames.{frame_bytes, read_frame-frame_bytes}

-- syncChunkSize: 64 << 10
abbrev pub sync_chunk_size : ℕ
sync_chunk_size = 0x1_0000

-- channelConn: what the connection still gives, and the rest of the last frame.
pub record Reader : Type 0 where
  pub incoming : Bytes
  pub buffered : Bytes

-- `n := copy(p, c.buf); c.buf = c.buf[n:]` for a p of n bytes.
abbrev copied : ℕ → Bytes → Bytes → Bytes × Reader
copied n frame rest = (take n frame, record { incoming = rest; buffered = drop n frame })

unfoldable pub channel_read : ℕ → Reader → Result Error (Bytes × Reader)
channel_read n r = elim r.buffered [
  | b ∷ bs ↦ ok (copied n (b ∷ bs) r.incoming)
  | [] ↦ elim (read_frame r.incoming) [
    | err e ↦ err e
    | ok (frame, rest) ↦ ok (copied n frame rest)
  ]
]

-- The output, and the error unless it is nil.
abbrev pub Output : Type 0
Output = Bytes × Option Error

abbrev ended : Bytes → Error → Output
ended output (read eof) = (output, none)
ended output e = (output, some e)

unfoldable pub read_output : ℕ → Bytes → Reader → Output
unfolding channel_read
read_output zero output r = (output, some out_of_fuel)
read_output (suc k) output r = elim (channel_read sync_chunk_size r) [
  | err e ↦ ended output e
  | ok (bytes, r') ↦ read_output k (output ++ bytes) r'
]

-- runCommand; the first argument is the outcome of the dial, and there is fuel for every byte and
-- every frame.
unfoldable pub run_command : Option Socket → Bytes → Bytes → Output
run_command dial serial command = elim (open_channel dial serial command) [
  | no_socket e ↦ ([], some e)
  | closed_socket s e ↦ ([], some e)
  | channel s ↦
      read_output (suc (length s.incoming)) [] (record { incoming = s.incoming; buffered = [] })
]

abbrev pub frames : List Bytes → Bytes
frames [] = []
frames (p ∷ ps) = frame_bytes p ++ frames ps

abbrev pub payloads : List Bytes → Bytes
payloads [] = []
payloads (p ∷ ps) = p ++ payloads ps

abbrev pub work : List Bytes → ℕ
work [] = 0
work (p ∷ ps) = suc (length p + work ps)

abbrev pub IsFrame : Bytes → Type 0
IsFrame p = length p ≤ max_frame_size

pub work≤length-frames : (ps : List Bytes) → work ps ≤ length (frames ps)
work≤length-frames [] = omega arith
work≤length-frames (p ∷ ps) = omega (
  arith,
  work≤length-frames ps,
  length-append (frame_bytes p) (frames ps),
  length-append (be_bytes (length p)) p,
  length-be_bytes (length p),
)

pub read_frame_ends : read_frame [] ≡ err (read eof)
unfolding read_frame read_full
read_frame_ends = refl

sent :
    (o p s : Bytes) → (o ++ take sync_chunk_size p) ++ (drop sync_chunk_size p ++ s) ≡ o ++ (p ++ s)
sent o p s =
    append_assoc o (take sync_chunk_size p) (drop sync_chunk_size p ++ s)
    ∙ ap (λ t. o ++ t)
        (sym (append_assoc (take sync_chunk_size p) (drop sync_chunk_size p) s)
          ∙ ap (λ t. t ++ s) (take-append-drop sync_chunk_size p))

read_output_lem :
    (k : ℕ) (output buffered : Bytes) (ps : List Bytes)
    → All IsFrame ps
    → suc (length buffered + work ps) ≤ k
    → read_output k output (record { incoming = frames ps; buffered = buffered })
      ≡ (output ++ (buffered ++ payloads ps), none)
unfolding read_output channel_read
read_output_lem zero output buffered ps f h = absurd (omega arith)
read_output_lem (suc k) output (b ∷ bs) ps f h =
    read_output_lem k (output ++ take sync_chunk_size (b ∷ bs)) (drop sync_chunk_size (b ∷ bs)) ps f
      (omega (arith, length-drop sync_chunk_size (b ∷ bs)))
    ∙ ap (λ t. (t, none)) (sent output (b ∷ bs) (payloads ps))
read_output_lem (suc k) output [] [] f h =
    rw (read_frame_ends, read_output) (ap (λ t. (t, none)) (sym (append-nil output)))
read_output_lem (suc k) output [] (p ∷ ps) (f, fs) h =
    rw (read_frame-frame_bytes p (frames ps) f, read_output)
      (read_output_lem k (output ++ take sync_chunk_size p) (drop sync_chunk_size p) ps fs
          (omega (arith, length-drop sync_chunk_size p))
        ∙ ap (λ t. (t, none)) (sent output p (payloads ps)))

-- If the channel opens and the server then sends the output in frames of at most 16 MiB, empty ones
-- among them, and closes the connection between two frames, runCommand gives the whole output, in
-- order, and no error: the fuel is enough, whatever the sizes of the frames and of the reads.
pub run_command-frames :
    (dial : Option Socket) (serial command : Bytes) (s : Socket) (ps : List Bytes)
    → open_channel dial serial command ≡ channel s
    → s.incoming ≡ frames ps
    → All IsFrame ps
    → run_command dial serial command ≡ (payloads ps, none)
run_command-frames dial serial command s ps c i f =
    let opened : run_command dial serial command
        ≡ read_output (suc (length s.incoming)) []
            (record { incoming = s.incoming; buffered = [] }) =
      unfold run_command in rw (c, run_command) refl in
    opened
    ∙ ap (λ t. read_output (suc (length t)) [] (record { incoming = t; buffered = [] })) i
    ∙ read_output_lem (suc (length (frames ps))) [] [] ps f (omega (arith, work≤length-frames ps))
