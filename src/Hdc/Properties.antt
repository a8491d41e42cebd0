-- ===== src/Hdc/Properties.antt =====
-- internal/hdcserver/properties.go, and the reading of properties in backend.go.
-- The commands that runCommand sends to the hdc server are answered by a parameter, which may depend
-- on how many were sent before: the output, and whether the error is nil.
use adb_tcp_bridge.Common.{
  ℕ, suc, Bool, not, ◌&&◌, ◌||◌, Option, none, some, List, [], ◌∷◌, ◌++◌, Bytes, codes, bytes_eq,
  has_prefix, Result, ok, err, ◌==◌, if◌then◌else◌,
}
use adb_tcp_bridge.Strings.{trim_space, contains, to_lower, fields, scan_lines}
use adb_tcp_bridge.Host.Properties.{Properties, parse_lines}

-- The parser of getprop's output is that of adbhost, without the scanner's error.
unfoldable pub parse_getprop : Bytes → Properties
parse_getprop output = parse_lines [] (scan_lines output).0

unfoldable pub is_generic_dev_name : Bytes → Bool
is_generic_dev_name text =
    let value = to_lower (trim_space text) in
    bytes_eq value []
    || (bytes_eq value (codes "localhost")
        || (bytes_eq value (codes "unknown") || bytes_eq value (codes "unknown...")))

unfoldable pub fallback_properties : Bytes → Properties
unfolding is_generic_dev_name
fallback_properties dev_name =
    (codes "ro.product.name", codes "openharmony")
    ∷ (
      codes "ro.product.model",
      if is_generic_dev_name dev_name then codes "OpenHarmony" else dev_name,
    )
    ∷ (codes "ro.product.device", codes "openharmony")
    ∷ []

-- The target and the device name of a line of `list targets -v`, if it has them.
unfoldable pub target_of : List Bytes → Option (Bytes × Bytes)
target_of (target ∷ b ∷ c ∷ dev ∷ fs) =
    if bytes_eq target (codes "[Empty]") then none else some (target, dev)
target_of _ = none

-- The loop over the lines, with the properties of the first target.
unfoldable pub find_target : Bytes → Option Properties → List Bytes → Option Properties
unfolding fallback_properties target_of
find_target serial first [] = if bytes_eq serial (codes "any") then first else none
find_target serial first (line ∷ lines) = elim (target_of (fields line)) [
  | none ↦ find_target serial first lines
  | some (target, dev) ↦
      let props = fallback_properties dev in
      let rest = find_target serial (elim first [ none ↦ some props | some p ↦ some p ]) lines in
      if bytes_eq target serial then some props else rest
]

unfoldable pub parse_target_list_properties : Bytes → Bytes → Option Properties
unfolding find_target
parse_target_list_properties output serial = find_target serial none (scan_lines output).0

-- strings.Trim(s, "\x00")
unfoldable pub trim_zeros_left : Bytes → Bytes
trim_zeros_left [] = []
trim_zeros_left (c ∷ cs) = if c == 0 then trim_zeros_left cs else c ∷ cs

unfoldable pub trim_zeros_right : Bytes → Bytes
trim_zeros_right [] = []
trim_zeros_right (c ∷ cs) = elim (trim_zeros_right cs) [
  | [] ↦ if c == 0 then [] else c ∷ []
  | d ∷ ds ↦ c ∷ d ∷ ds
]

abbrev pub is_failure_start : Bytes → Bool
is_failure_start lower = has_prefix (codes "fail") lower || has_prefix (codes "error") lower

unfoldable pub clean_param_value : Bytes → Bytes
unfolding trim_zeros_left trim_zeros_right
clean_param_value output =
    let value = trim_zeros_right (trim_zeros_left (trim_space output)) in
    let low = to_lower value in
    if bytes_eq value []
    then []
    else if contains (codes "get parameter") low && contains (codes "fail") low
    then []
    else if is_failure_start low
    then []
    else value

pub data PropertyError : Type 0 where
  command_failed : PropertyError
  target_not_found : Bytes → PropertyError

-- The hdc server, and the commands sent so far.
abbrev pub Commander : Type 0
Commander = ℕ → Bytes → Bytes × Bool

module _ (run_command : Commander) where
  -- firstParam, with the number of the commands sent before and after.
  unfoldable pub first_param : ℕ → List Bytes → ℕ × Bytes
  first_param n [] = (n, [])
  first_param n (key ∷ keys) =
      let (output, fine) = run_command n (codes "shell param get " ++ key) in
      let value = clean_param_value output in
      let rest = first_param (suc n) keys in
      if not fine then rest else if bytes_eq value [] then rest else (suc n, value)

  abbrev pub set_property : Bytes → ℕ × Bytes → Properties → ℕ × Properties
  set_property name (n, value) ps = (n, if bytes_eq value [] then ps else (name, value) ∷ ps)

  -- fillProductProperties
  unfoldable pub fill_product_properties : ℕ → Properties → ℕ × Properties
  unfolding first_param
  fill_product_properties n ps =
      let (n₁, ps₁) =
        set_property (codes "ro.product.name")
          (first_param n (codes "const.product.name" ∷ codes "const.product.devicetype" ∷ [])) ps in
      let (n₂, ps₂) =
        set_property (codes "ro.product.model")
          (first_param n₁ (codes "const.product.model" ∷ codes "const.product.software.model" ∷ []))
          ps₁ in
      set_property (codes "ro.product.device")
        (first_param n₂ (
          codes "const.product.device"
          ∷ codes "const.product.board"
          ∷ codes "const.product.devicetype"
          ∷ []))
        ps₂

  unfoldable pub read_properties : Bytes → Result PropertyError Properties
  unfolding fill_product_properties
  read_properties serial =
      let (output, fine) = run_command 0 (codes "list targets -v") in
      if not fine then err command_failed else elim (parse_target_list_properties output serial) [
        | none ↦ err (target_not_found serial)
        | some ps ↦ ok (fill_product_properties 1 ps).1
      ]
