-- ===== src/Hdc/Sync/Listing.antt =====
-- A client that reads the answer to a LIST request has the entries of the directory.
use adb_tcp_bridge.Common.{
  ℕ, zero, suc, ◌+◌, ◌-◌, ◌*◌, ◌%◌, ◌^◌, ◌≤◌, ◌≡◌, refl, ap, ◌∙◌, Bool, true, false, Option, none,
  some, List, [], ◌∷◌, ◌++◌, map, arith, Bytes, codes, bytes_eq, ok, err, if◌then◌else◌, length,
  take, drop, replicate, append_assoc, All,
}
use adb_tcp_bridge.Common.Word.{IsU32, le_bytes, le_value}
use adb_tcp_bridge.Stream.{Writer, write, new_writer, read_full, read_full-append}
use adb_tcp_bridge.Hdc.Sync.Remote.{RemoteEntry, Shell, remote_list}
use adb_tcp_bridge.Hdc.Sync.Answers.{
  entry_header, write_sync_dent, write_sync_dent_done, write_dents, handle_list,
}

-- What a client knows of an entry: the size is one of 32 bits.
abbrev pub seen : RemoteEntry → RemoteEntry
seen e = record e { size = e.size % 2 ^ 32 }

abbrev with_entry :
    RemoteEntry → Option (List RemoteEntry × Bytes) → Option (List RemoteEntry × Bytes)
with_entry e none = none
with_entry e (some (es, s)) = some (e ∷ es, s)

-- The sync protocol's own description of the answer: headers of 20 bytes, of which a DENT is followed
-- by its name and a DONE is the last; at most k of them.
unfoldable pub read_dents : ℕ → Bytes → Option (List RemoteEntry × Bytes)
read_dents zero s = none
read_dents (suc k) s = elim (read_full 20 s) [
  | err e ↦ none
  | ok (h, rest) ↦
      if bytes_eq (take 4 h) (codes "DONE")
      then some ([], rest)
      else elim (read_full (le_value (drop 16 h)) rest) [
        | err e ↦ none
        | ok (name, rest') ↦
            with_entry
              (record {
                name = name;
                mode = le_value (take 4 (drop 4 h));
                size = le_value (take 4 (drop 8 h));
                mtime = le_value (take 4 (drop 12 h));
              })
              (read_dents k rest')
      ]
]

pub record IsEntry (e : RemoteEntry) : Type 0 where
  pub mode_fits : IsU32 e.mode
  pub mtime_fits : IsU32 e.mtime
  pub name_fits : IsU32 (length e.name)

abbrev dent_header : RemoteEntry → Bytes
dent_header e = entry_header (codes "DENT") e ++ le_bytes 4 (length e.name % 2 ^ 32)

abbrev done_header : Bytes
done_header = codes "DONE" ++ replicate 16 0

abbrev dents : List RemoteEntry → Bytes
dents [] = done_header
dents (e ∷ es) = dent_header e ++ (e.name ++ dents es)

fields-dent_header :
    (e : RemoteEntry)
    → IsEntry e
    → (le_value (take 4 (drop 4 (dent_header e))) ≡ e.mode)
      × (le_value (take 4 (drop 8 (dent_header e))) ≡ e.size % 2 ^ 32)
      × (le_value (take 4 (drop 12 (dent_header e))) ≡ e.mtime)
      × (le_value (drop 16 (dent_header e)) ≡ length e.name)
unfolding entry_header le_bytes le_value
fields-dent_header e v = (
  omega (arith, v.mode_fits),
  omega arith,
  omega (arith, v.mtime_fits),
  omega (arith, v.name_fits),
)

read_dent :
    (k : ℕ) (e : RemoteEntry) (s : Bytes)
    → IsEntry e
    → read_dents (suc k) (dent_header e ++ (e.name ++ s)) ≡ with_entry (seen e) (read_dents k s)
unfolding read_dents
read_dent k e s v =
    let (a, b, c, d) = fields-dent_header e v in
    let size : length (dent_header e) ≡ 20 = unfold entry_header le_bytes in refl in
    let id : bytes_eq (take 4 (dent_header e)) (codes "DONE") ≡ false =
      unfold entry_header bytes_eq in refl in
    rw (read_full-append 20 (dent_header e) (e.name ++ s) size, read_dents)
      (rw (id, d) (rw (read_full-append (length e.name) e.name s refl) (rw (a, b, c) refl)))

read_dents-dents :
    (es : List RemoteEntry) (rest : Bytes)
    → All IsEntry es
    → read_dents (suc (length es)) (dents es ++ rest) ≡ some (map seen es, rest)
unfolding read_dents
read_dents-dents [] rest h =
    rw (read_full-append 20 done_header rest refl, read_dents) (unfold bytes_eq in refl)
read_dents-dents (e ∷ es) rest (v, vs) =
    ap (λ s. read_dents (suc (suc (length es))) s)
      (append_assoc (dent_header e) (e.name ++ dents es) rest
        ∙ ap (λ t. dent_header e ++ t) (append_assoc e.name (dents es) rest))
    ∙ read_dent (suc (length es)) e (dents es ++ rest) v
    ∙ ap (λ r. with_entry (seen e) r) (read_dents-dents es rest vs)

dent_written :
    (e : RemoteEntry) (o : Bytes) (n : ℕ)
    → 2 ≤ n
    → let w : Writer = record { written = o; budget = n } in
      write_sync_dent e w
      ≡ (record { written = o ++ (dent_header e ++ e.name); budget = n - 2 }, true)
unfolding write_sync_dent write
dent_written e o zero h = absurd (omega arith)
dent_written e o (suc zero) h = absurd (omega arith)
dent_written e o (suc (suc n)) h =
    let left : n ≡ suc (suc n) - 2 = omega arith in
    ap (λ t. (record { written = t; budget = n }, true)) (append_assoc o (dent_header e) e.name)
    ∙ ap (λ k. (record { written = o ++ (dent_header e ++ e.name); budget = k }, true)) left

write_dents-written :
    (es : List RemoteEntry) (o : Bytes) (n : ℕ)
    → length es * 2 + 1 ≤ n
    → (write_dents es (record { written = o; budget = n })).written ≡ o ++ dents es
unfolding write_dents
write_dents-written [] o zero h = absurd (omega arith)
write_dents-written [] o (suc n) h = unfold write_sync_dent_done write in refl
write_dents-written (e ∷ es) o n h =
    ap (λ (r : Writer × Bool). (if r.1 then write_dents es r.0 else r.0).written)
      (dent_written e o n (omega arith))
    ∙ write_dents-written es (o ++ (dent_header e ++ e.name)) (n - 2) (omega arith)
    ∙ append_assoc o (dent_header e ++ e.name) (dents es)
    ∙ ap (λ t. o ++ t) (append_assoc (dent_header e) e.name (dents es))

-- If the shell's listing of a remote path gives some entries, each with a mode, a time and a length of
-- its name below 2 ^ 32, and the client's end takes two writes for each entry and one more, then a
-- reader of DENT headers and names up to the DONE header, given what handleList wrote, gets those
-- entries in order, with sizes modulo 2 ^ 32, and nothing of what follows.
pub read_dents-handle_list :
    (shell : Shell) (remote rest : Bytes) (es : List RemoteEntry) (n : ℕ)
    → remote_list shell remote ≡ ok es
    → All IsEntry es
    → length es * 2 + 1 ≤ n
    → read_dents (suc (length es)) ((handle_list shell remote (new_writer n)).written ++ rest)
      ≡ some (map seen es, rest)
read_dents-handle_list shell remote rest es n o v h =
    let sent : handle_list shell remote (new_writer n) ≡ write_dents es (new_writer n) =
      unfold handle_list in rw (handle_list, o) refl in
    ap (λ w. read_dents (suc (length es)) (w.written ++ rest)) sent
    ∙ ap (λ t. read_dents (suc (length es)) (t ++ rest)) (write_dents-written es [] n h)
    ∙ read_dents-dents es rest v
