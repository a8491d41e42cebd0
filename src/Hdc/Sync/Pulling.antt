-- ===== src/Hdc/Sync/Pulling.antt =====
-- A client that reassembles what handleRecv sends has the file that the device sent.
use adb_tcp_bridge.Common.{
  ℕ, zero, suc, ◌+◌, ◌-◌, ◌*◌, ◌%◌, ◌^◌, ◌≤◌, ◌≡◌, refl, sym, ap, ◌∙◌, Bool, true, false, not, none,
  List, [], ◌∷◌, ◌++◌, arith, Bytes, codes, bytes_eq, Result, ok, ltb, if◌then◌else◌, length,
  append_assoc, All,
}
use adb_tcp_bridge.Stream.{Writer, write, new_writer}
use adb_tcp_bridge.Strings.{trim_space}
use adb_tcp_bridge.Hdc.Sync.{write_sync_header, write_sync_data, push, receive_upload}
use adb_tcp_bridge.Hdc.Sync.Receiving.{
  sync_header, data_bytes, all_data, contents, FitsRequest, receive_upload-chunks,
}
use adb_tcp_bridge.Hdc.Sync.Remote.{pull_file_command}
use adb_tcp_bridge.Hdc.Sync.Answers.{Pull, pull_ok_marker, all_of, copy_pull, pulled, handle_recv}

-- The reads that gave something.
full : List Bytes → List Bytes
full [] = []
full ([] ∷ cs) = full cs
full ((b ∷ bs) ∷ cs) = (b ∷ bs) ∷ full cs

contents-full : (cs : List Bytes) → contents (full cs) ≡ all_of cs
unfolding full all_of
contents-full [] = refl
contents-full ([] ∷ cs) = contents-full cs
contents-full ((b ∷ bs) ∷ cs) = ap (λ t. (b ∷ bs) ++ t) (contents-full cs)

length-full : (cs : List Bytes) → length (full cs) ≤ length cs
unfolding full
length-full [] = omega arith
length-full ([] ∷ cs) = omega (arith, length-full cs)
length-full ((b ∷ bs) ∷ cs) = omega (arith, length-full cs)

full-FitsRequest : (cs : List Bytes) → All FitsRequest cs → All FitsRequest (full cs)
unfolding full
full-FitsRequest [] h = tt
full-FitsRequest ([] ∷ cs) (h, hs) = full-FitsRequest cs hs
full-FitsRequest ((b ∷ bs) ∷ cs) (h, hs) = (h, full-FitsRequest cs hs)

data_written :
    (c o : Bytes) (n : ℕ)
    → FitsRequest c
    → 2 ≤ n
    → let w : Writer = record { written = o; budget = n } in
      write_sync_data c w ≡ (record { written = o ++ data_bytes c; budget = n - 2 }, true)
unfolding write_sync_data write_sync_header write
data_written c o zero f h = absurd (omega arith)
data_written c o (suc zero) f h = absurd (omega arith)
data_written c o (suc (suc n)) f h =
    let small : length c % 2 ^ 32 ≡ length c = omega arith in
    rw (small, append_assoc) (ground arith)

done_written :
    (o : Bytes) (n : ℕ)
    → 1 ≤ n
    → let w : Writer = record { written = o; budget = n } in
      (write_sync_header (codes "DONE") 0 w).0.written ≡ o ++ sync_header (codes "DONE") 0
unfolding write_sync_header write
done_written o zero h = absurd (omega arith)
done_written o (suc n) h = refl

copy_pull-written :
    (cs : List Bytes) (o : Bytes) (n : ℕ)
    → All FitsRequest cs
    → length cs * 2 + 1 ≤ n
    → (copy_pull cs none (record { written = o; budget = n })).written
      ≡ o ++ (all_data (full cs) ++ sync_header (codes "DONE") 0)
unfolding copy_pull full
copy_pull-written [] o n f h = done_written o n (omega arith)
copy_pull-written ([] ∷ cs) o n (f, fs) h = copy_pull-written cs o n fs (omega arith)
copy_pull-written ((b ∷ bs) ∷ cs) o n (f, fs) h =
    let w : Writer = record { written = o; budget = n } in
    let pos : not (ltb 0 (length (b ∷ bs))) ≡ false = ground arith in
    let step : copy_pull ((b ∷ bs) ∷ cs) none w
        ≡ (let r = write_sync_data (b ∷ bs) w in if r.1 then copy_pull cs none r.0 else r.0) =
      rw (pos, copy_pull) refl in
    ap (λ w'. w'.written) step
    ∙ ap (λ (r : Writer × Bool). (if r.1 then copy_pull cs none r.0 else r.0).written)
        (data_written (b ∷ bs) o n f (omega arith))
    ∙ copy_pull-written cs (o ++ data_bytes (b ∷ bs)) (n - 2) fs (omega arith)
    ∙ append_assoc o (data_bytes (b ∷ bs)) _
    ∙ ap (λ t. o ++ t) (sym (append_assoc (data_bytes (b ∷ bs)) (all_data (full cs)) _))

pulled_ok : (p : Pull) (w : Writer) → pulled pull_ok_marker p w ≡ copy_pull p.chunks p.ended w
unfolding pulled bytes_eq
pulled_ok p w = refl

-- If the device has the file of a RECV request with a path that is not blank and its output ends in
-- EOF, with each read of at most 16 MiB and enough writes to the client, then a reader of DATA requests
-- up to a DONE, given what handleRecv wrote, gets exactly the file's bytes and nothing of what follows.
pub receive_upload-handle_recv :
    (open_channel : Bytes → Result Bytes Pull) (path rest : Bytes) (p : Pull) (n m : ℕ)
    → bytes_eq (trim_space path) [] ≡ false
    → open_channel (codes "shell " ++ pull_file_command (trim_space path)) ≡ ok p
    → p.marker ≡ ok pull_ok_marker
    → p.ended ≡ none
    → All FitsRequest p.chunks
    → length p.chunks * 2 + 1 ≤ n
    → length p.chunks ≤ m
    → receive_upload ((handle_recv open_channel path (new_writer n)).written ++ rest) (new_writer m)
      ≡ (push (all_of p.chunks), rest)
receive_upload-handle_recv open_channel path rest p n m b o k e f h g =
    let sent : handle_recv open_channel path (new_writer n)
        ≡ copy_pull p.chunks none (new_writer n) =
      unfold handle_recv in
      rw (handle_recv, b, o, k)
        (pulled_ok p (new_writer n) ∙ ap (λ t. copy_pull p.chunks t (new_writer n)) e) in
    ap (λ w. receive_upload (w.written ++ rest) (new_writer m)) sent
    ∙ ap (λ t. receive_upload (t ++ rest) (new_writer m)) (copy_pull-written p.chunks [] n f h)
    ∙ ap (λ t. receive_upload t (new_writer m))
        (append_assoc (all_data (full p.chunks)) (sync_header (codes "DONE") 0) rest)
    ∙ receive_upload-chunks (full p.chunks) 0 rest m (full-FitsRequest p.chunks f) (omega arith)
        (omega (arith, length-full p.chunks))
    ∙ ap (λ t. (push t, rest)) (contents-full p.chunks)
