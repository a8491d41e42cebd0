-- ===== src/Examples/Answers.antt =====
-- Answers of the sync service, and properties of a device.
use adb_tcp_bridge.Common.{
  replicate, ℕ, ◌^◌, ◌<◌, ◌≡◌, ◌≢◌, refl, true, false, Option, none, some, List, [], ◌∷◌, ◌++◌, map,
  arith, Bytes, codes, bytes_eq, cut, Bool, not, ◌&&◌, ◌==◌, ok, length, length-append, All,
}
use mathlib.Core.List.{cons≢nil}
use adb_tcp_bridge.Strconv.{digit_value, parse_uint}
use adb_tcp_bridge.Stream.{new_writer}
use adb_tcp_bridge.Strings.{scan_from, trim_left, trim_right, trim_space, trim_suffix}
use adb_tcp_bridge.Host.Properties.{Properties, parse_getprop, property}
use adb_tcp_bridge.Host.Properties.Printed.{
  getprop_text, last_value, IsProperty, parse_getprop-getprop_text,
}
use adb_tcp_bridge.Hdc.Sync.{push, receive_upload}
use adb_tcp_bridge.Hdc.Sync.Remote.{RemoteEntry, Shell, remote_list, file_mode, dir_mode}
use adb_tcp_bridge.Hdc.Sync.Answers.{Pull, pull_ok_marker, all_of, handle_list, handle_recv}
use adb_tcp_bridge.Hdc.Sync.Pulling.{receive_upload-handle_recv}
use adb_tcp_bridge.Hdc.Sync.Pipe.{Traced}
use adb_tcp_bridge.Hdc.Sync.Listing.{seen, read_dents, IsEntry, read_dents-handle_list}

-- A device that has every file.
abbrev pull : Pull
pull = record {
  marker = ok pull_ok_marker;
  chunks = codes "ab" ∷ [] ∷ codes "c" ∷ [];
  ended = none;
}

named : bytes_eq (trim_space (codes "/f")) [] ≡ false
unfolding bytes_eq trim_right trim_left
named = refl

receive_upload-handle_recv_example :
    receive_upload
      ((handle_recv (λ c. ok pull) (codes "/f") (new_writer 7)).written ++ codes "x")
      (new_writer 3)
    ≡ (push (all_of pull.chunks), codes "x")
receive_upload-handle_recv_example =
    receive_upload-handle_recv (λ c. ok pull) (codes "/f") (codes "x") pull 7 3 named refl refl refl
      (omega arith, (omega arith, (omega arith, tt))) (omega arith) (omega arith)

-- A directory with a file and a directory.
abbrev shell : Shell
shell command = ok (codes "f\t5\t0\ta b\nd\t0\t0\tc\n")

abbrev entries : List RemoteEntry
entries =
    record { name = codes "a b"; mode = file_mode; size = 5; mtime = 0 }
    ∷ record { name = codes "c"; mode = dir_mode; size = 0; mtime = 0 }
    ∷ []

listed : remote_list shell (codes "/d") ≡ ok entries
unfolding remote_list bytes_eq parse_uint digit_value cut scan_from trim_left trim_right trim_suffix
listed = refl

small-IsEntry :
    (e : RemoteEntry) → e.mode < 2 ^ 32 → e.mtime < 2 ^ 32 → length e.name < 2 ^ 32 → IsEntry e
small-IsEntry e a b c = record { mode_fits = a; mtime_fits = b; name_fits = c }

read_dents-handle_list_example :
    read_dents 3 ((handle_list shell (codes "/d") (new_writer 5)).written ++ codes "x")
    ≡ some (map seen entries, codes "x")
read_dents-handle_list_example =
    read_dents-handle_list shell (codes "/d") (codes "x") entries 5 listed
      (
        small-IsEntry _ (omega arith) (omega arith) (omega arith),
        (small-IsEntry _ (omega arith) (omega arith) (omega arith), tt),
      )
      (omega arith)

abbrev properties : List (Bytes × Bytes)
properties = (codes "ro.a", codes "x: y") ∷ (codes "ro.a", codes "z") ∷ []

abbrev has_none : ℕ → Bytes → Bool
has_none b [] = true
has_none b (c ∷ cs) = not (c == b) && has_none b cs

has_none-All : (b : ℕ) (cs : Bytes) → has_none b cs ≡ true → All (λ c. c ≢ b) cs
has_none-All b [] h = tt
has_none-All b (c ∷ cs) h = (ground arith, has_none-All b cs (ground arith))

a-IsProperty : (v : Bytes) → has_none b'\n' v ≡ true → length v < 99 → IsProperty (codes "ro.a", v)
a-IsProperty v h f = record {
  named = cons≢nil;
  plain_key = has_none-All b']' (codes "ro.a") refl;
  key_line = has_none-All b'\n' (codes "ro.a") refl;
  value_line = has_none-All b'\n' v h;
  fits = omega (arith, length-append v (b']' ∷ []));
}

parse_getprop-getprop_text_example :
    (ps : Properties) × (parse_getprop (getprop_text properties) ≡ ok ps)
    × (◌≡◌ {A = Bytes → Option Bytes} (λ key. property key ps) (λ key. last_value key properties))
parse_getprop-getprop_text_example = parse_getprop-getprop_text properties (
  a-IsProperty (codes "x: y") refl (omega arith),
  (a-IsProperty (codes "z") refl (omega arith), tt),
)

-- A client that has closed its end of a pipe with 1024 chunks in it.
abbrev full : Traced
full = record {
  half = record {
    queue = replicate 1024 [];
    buffered = [];
    writer_closed = false;
    reader_closed = false;
  };
  taken = [];
  given = [];
}
