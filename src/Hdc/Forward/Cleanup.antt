-- ===== src/Hdc/Forward/Cleanup.antt =====
-- The removals that an attempt to reach a local service asks for.
use adb_tcp_bridge.Common.{
  ℕ, zero, suc, ◌≤◌, ◌≡◌, refl, sym, ap, Bool, not, Option, none, some, [], ◌∷◌, arith, Bytes,
  codes, Result, ok, err, if_elim,
}
use adb_tcp_bridge.Strings.{contains}
use adb_tcp_bridge.Hdc.Forward.{
  forward_setup_retries, forward_port_min, forward_port_max, random_forward_port, Probe, byte,
  nothing, timed_out, closed_at_once, failed, Attempt, Error, fport_result, ForwardConn, Rules,
  cleanup, forward_conn, probed, attempt, after_attempt, attempts, open_forward, close,
}

abbrev pub no_rules : Rules
no_rules = record { added = []; failed = []; asked = [] }

-- The removal of every rule whose setup succeeded was asked for, or of all but that of an open
-- connection, which its Close asks for, and no second Close asks for anything.
abbrev pub Tidied : Rules × Result Error ForwardConn → Type 0
Tidied (rules, err e) = rules.asked ≡ rules.added
Tidied (rules, ok c) =
    (rules.added ≡ c.port ∷ rules.asked)
    × (forward_port_min ≤ c.port)
    × (c.port ≤ forward_port_max)
    × (let (c', rules') = close c rules in
        (rules'.asked ≡ rules'.added) × ((close c' rules').1 ≡ rules'))

abbrev RoundTidied : Rules × Option (Result Error ForwardConn) → Type 0
RoundTidied (rules, none) = rules.asked ≡ rules.added
RoundTidied (rules, some r) = Tidied (rules, r)

conn-Tidied :
    (prefix : Bytes) (r : ℕ) (rules : Rules)
    → rules.asked ≡ rules.added
    → let port = random_forward_port r in
      Tidied (record rules { added = port ∷ rules.added }, ok (forward_conn prefix port))
unfolding close random_forward_port
conn-Tidied prefix r rules h = (
  ap (λ t. random_forward_port r ∷ t) (sym h),
  omega arith,
  omega arith,
  (ap (λ t. random_forward_port r ∷ t) h, refl),
)

probed-Tidied :
    (r : ℕ) (p : Probe) (rules : Rules)
    → rules.asked ≡ rules.added
    → let port = random_forward_port r in
      Tidied (probed port p (record rules { added = port ∷ rules.added }))
unfolding probed
probed-Tidied r (byte b) rules h = conn-Tidied (b ∷ []) r rules h
probed-Tidied r nothing rules h = conn-Tidied [] r rules h
probed-Tidied r timed_out rules h = conn-Tidied [] r rules h
probed-Tidied r closed_at_once rules h = ap (λ t. random_forward_port r ∷ t) h
probed-Tidied r failed rules h = ap (λ t. random_forward_port r ∷ t) h

dialled-Tidied :
    (r : ℕ) (d : Option Probe) (rules : Rules)
    → rules.asked ≡ rules.added
    → let port = random_forward_port r in
      let rules' : Rules = record rules { added = port ∷ rules.added } in
      RoundTidied (elim d [
        | none ↦ (cleanup port rules', none)
        | some p ↦ let (rules'', r') = probed port p rules' in (rules'', some r')
      ])
dialled-Tidied r none rules h = ap (λ t. random_forward_port r ∷ t) h
dialled-Tidied r (some p) rules h = probed-Tidied r p rules h

attempt-Tidied :
    (random : Option ℕ) (output : Bytes) (fine : Bool) (d : Option Probe) (rules : Rules)
    → rules.asked ≡ rules.added
    → RoundTidied
        (attempt (record { random = random; output = output; fine = fine; dialled = d }) rules)
unfolding attempt
attempt-Tidied none output fine d rules h = h
attempt-Tidied (some r) output fine d rules h =
    if_elim RoundTidied (not (fport_result output fine).1)
      (λ _.
        if_elim
          (λ r'. RoundTidied (record rules { failed = random_forward_port r ∷ rules.failed }, r'))
          (contains (codes "TCP Port listen failed") (fport_result output fine).0) (λ _. h)
          (λ _. h))
      (λ _. dialled-Tidied r d rules h)

attempts-Tidied :
    (world : ℕ → Attempt) (k : ℕ) (rules : Rules)
    → rules.asked ≡ rules.added
    → Tidied (attempts world k rules)
unfolding attempts
attempts-Tidied world zero rules h = h
attempts-Tidied world (suc k) rules h =
    next (attempts world k) (attempts-Tidied world k) (attempt (world k) rules)
      (attempt-Tidied (world k).random (world k).output (world k).fine (world k).dialled rules h)
  where
    next :
        (f : Rules → Rules × Result Error ForwardConn)
        → ((rules : Rules) → rules.asked ≡ rules.added → Tidied (f rules))
        → (r : Rules × Option (Result Error ForwardConn)) → RoundTidied r
        → Tidied (after_attempt f r)
    next f ih (rules, none) h = ih rules h
    next f ih (rules, some r) h = h

-- However its attempts go, openForward asks once for the removal of each rule whose setup succeeded,
-- that is, for which the setup's runFportCommand gave no error, and of no other, but for that of the
-- connection that it returns; that rule is on a port from 40000 to 60000, closing the connection asks for
-- its removal, and closing it again asks for nothing. What comes of a removal, and whether a setup
-- that gave an error has left a rule on the server, is not said: the code looks at neither.
pub open_forward-Tidied : (world : ℕ → Attempt) → Tidied (open_forward world no_rules)
unfolding open_forward
open_forward-Tidied world = attempts-Tidied world forward_setup_retries no_rules refl
