-- ===== src/Hdc/Forward.antt =====
-- internal/hdcserver/forward.go: a local service of the device, reached through a rule of the hdc
-- server that forwards a local port to it.
-- What rand.Read, the hdc server and the dialling of the local port give is a parameter, which depends
-- on the number of the attempt. Waiting is left out.
pub mod Cleanup
use adb_tcp_bridge.Common.{
  ℕ, zero, suc, ◌+◌, ◌-◌, ◌%◌, Bool, true, false, not, ◌&&◌, ◌||◌, Option, none, some, List, [],
  ◌∷◌, ◌++◌, Bytes, codes, bytes_eq, has_prefix, cut_prefix, Result, ok, err, leb, ltb, ◌==◌,
  if◌then◌else◌,
}
use adb_tcp_bridge.Strconv.{itoa}
use adb_tcp_bridge.Strings.{trim_space, contains, to_lower}
use adb_tcp_bridge.Hdc.Properties.{is_failure_start}

abbrev pub forward_setup_retries : ℕ
forward_setup_retries = 16

abbrev pub forward_port_min : ℕ
forward_port_min = 40000

abbrev pub forward_port_max : ℕ
forward_port_max = 60000

abbrev pub is_digit : ℕ → Bool
is_digit c = leb b'0' c && leb c b'9'

unfoldable pub all_digits : Bytes → Bool
all_digits [] = true
all_digits (c ∷ cs) = is_digit c && all_digits cs

-- isAllDigits
abbrev pub is_all_digits : Bytes → Bool
is_all_digits value = if bytes_eq value [] then false else all_digits value

-- A case of the switch: the node, if what follows the scheme is not empty.
abbrev pub named : Bytes → Bytes → Option Bytes
named node name = if bytes_eq name [] then none else some node

unfoldable pub parse_forward_service : Bytes → Option Bytes
unfolding all_digits
parse_forward_service service = elim (cut_prefix (codes "localabstract:") service) [
  | some name ↦ named service name
  | none ↦ elim (cut_prefix (codes "localfilesystem:") service) [
    | some name ↦ named service name
    | none ↦ elim (cut_prefix (codes "localreserved:") service) [
      | some name ↦ named service name
      | none ↦ elim (cut_prefix (codes "tcp:") service) [
        | some port ↦ if is_all_digits port then some service else none
        | none ↦ elim (cut_prefix (codes "local:") service) [
          | some name ↦ named (codes "localfilesystem:" ++ name) name
          | none ↦ none
        ]
      ]
    ]
  ]
]

-- isHDCFailureText
unfoldable pub is_failure_text : Bytes → Bool
is_failure_text text =
    if bytes_eq text []
    then false
    else if contains (codes "[Fail]") text
    then true
    else is_failure_start (to_lower text)

-- randomForwardPort, given the uint32 of the four random bytes.
unfoldable pub random_forward_port : ℕ → ℕ
random_forward_port r = forward_port_min + r % (forward_port_max - forward_port_min + 1)

-- The first read of ensureForwardAlive.
pub data Probe : Type 0 where
  byte : ℕ → Probe
  nothing timed_out : Probe
  closed_at_once : Probe
  failed : Probe

-- What one attempt meets: the random number, if any; what runCommand gives for the setup, its output
-- and whether the error is nil; and the outcome of dialling the port with the first read.
pub record Attempt : Type 0 where
  pub random : Option ℕ
  pub output : Bytes
  pub fine : Bool
  pub dialled : Option Probe

pub data Error : Type 0 where
  no_random : Error
  setup_failed : Bytes → Error
  node_refused : Error
  read_failed : Error
  exhausted : Error

-- runFportCommand, given what runCommand gave: the text, and whether the error is nil.
unfoldable pub fport_result : Bytes → Bool → Bytes × Bool
unfolding is_failure_text
fport_result output fine =
    let text = trim_space output in if is_failure_text text then (text, false) else (text, fine)

-- A connection through a rule: the byte that the probe has read, and the port of the rule whose removal
-- Close asks for, once.
pub record ForwardConn : Type 0 where
  pub prefix : Bytes
  pub port : ℕ
  pub is_open : Bool
  pub cleaned : Bool

-- What was done about rules, by their ports, latest first: the setups for which runFportCommand gave no
-- error, those for which it gave one, and the removals that were asked for. The server may hold a rule
-- of a failed setup too, when its answer got lost, and it may hold one after its removal was asked
-- for: `fport rm` may fail or run out of time, and its result is dropped.
pub record Rules : Type 0 where
  pub added : List ℕ
  pub failed : List ℕ
  pub asked : List ℕ

abbrev pub cleanup : ℕ → Rules → Rules
cleanup port rules = record rules { asked = port ∷ rules.asked }

abbrev pub forward_conn : Bytes → ℕ → ForwardConn
forward_conn prefix port = record { prefix = prefix; port = port; is_open = true; cleaned = false }

-- ensureForwardAlive, and what openForward does with its answer.
unfoldable pub probed : ℕ → Probe → Rules → Rules × Result Error ForwardConn
probed port (byte b) rules = (rules, ok (forward_conn (b ∷ []) port))
probed port nothing rules = (rules, ok (forward_conn [] port))
probed port timed_out rules = (rules, ok (forward_conn [] port))
probed port closed_at_once rules = (cleanup port rules, err node_refused)
probed port failed rules = (cleanup port rules, err read_failed)

-- One round of the loop of openForward: none if it goes on to the next attempt.
unfoldable pub attempt : Attempt → Rules → Rules × Option (Result Error ForwardConn)
unfolding fport_result random_forward_port probed
attempt a rules = elim a.random [
  | none ↦ (rules, some (err no_random))
  | some r ↦
      let port = random_forward_port r in
      let (text, fine) = fport_result a.output a.fine in
      if not fine
      then (
        record rules { failed = port ∷ rules.failed },
        if contains (codes "TCP Port listen failed") text
            then none
            else some (err (setup_failed text)),
      )
      else let rules' = record rules { added = port ∷ rules.added } in
        elim a.dialled [
          | none ↦ (cleanup port rules', none)
          | some p ↦ let (rules'', r') = probed port p rules' in (rules'', some r')
        ]
]

-- What the loop does after a round.
abbrev pub after_attempt :
    (Rules → Rules × Result Error ForwardConn)
    → Rules × Option (Result Error ForwardConn)
    → Rules × Result Error ForwardConn
after_attempt next (rules, none) = next rules
after_attempt next (rules, some r) = (rules, r)

-- The loop, with the attempts that are left.
unfoldable pub attempts : (ℕ → Attempt) → ℕ → Rules → Rules × Result Error ForwardConn
unfolding attempt
attempts world zero rules = (rules, err exhausted)
attempts world (suc k) rules = after_attempt (attempts world k) (attempt (world k) rules)

-- openForward
unfoldable pub open_forward : (ℕ → Attempt) → Rules → Rules × Result Error ForwardConn
unfolding attempts
open_forward world = attempts world forward_setup_retries

-- forwardConn.Close
unfoldable pub close : ForwardConn → Rules → ForwardConn × Rules
close c rules =
    if c.cleaned
    then (record c { is_open = false }, rules)
    else (record c { is_open = false; cleaned = true }, cleanup c.port rules)
