-- ===== src/Listening/Ports.antt =====
-- The port that a bridge listens on is the first that is free.
use adb_tcp_bridge.Common.{
  ℕ, zero, suc, ◌+◌, ◌-◌, ◌≤◌, ◌<◌, ◌≡◌, ◌⊎◌, refl, sym, ap, subst, ◌∙◌, inl, inr, Bool, true,
  false, Option, none, some, arith, Bytes, ok, if◌then◌else◌, ltb, ltb→lt, Bool-cases,
}
use adb_tcp_bridge.Strconv.Decimal.{ℤ, pos, negsuc}
use adb_tcp_bridge.Listening.{
  Config, Server, checked_port, new_server_at, new_server, max_port, Properties, Bound, in_use,
  listener, failed, Listened, listening, listen_failed, no_port, after_bind, listen_ports, listen,
}

-- What a port that is not in use gives.
abbrev pub taken : Server → Bound → Listened
taken server (listener l) = listening l
taken server (failed e) = listen_failed e
taken server in_use = no_port server.listen_start_port

abbrev pub is_in_use : Bound → Bool
is_in_use in_use = true
is_in_use (listener l) = false
is_in_use (failed e) = false

module _ (bind : Bytes → ℕ → Bound) (server : Server) where
  -- The ports of a range are all in use.
  abbrev pub AllInUse : ℕ → ℕ → Type 0
  AllInUse from to = (q : ℕ) → from ≤ q → q < to → bind server.listen_host q ≡ in_use

  free_here :
      (b : Bound) (higher : Listened) → is_in_use b ≡ false → after_bind b higher ≡ taken server b
  free_here (listener l) higher e = refl
  free_here in_use higher e = cc
  free_here (failed x) higher e = refl

  first_free :
      (k d port : ℕ)
      → d < k
      → AllInUse port (port + d)
      → is_in_use (bind server.listen_host (port + d)) ≡ false
      → listen_ports bind server k port ≡ taken server (bind server.listen_host (port + d))
  unfolding listen_ports
  first_free zero d port h u f = absurd (omega arith)
  first_free (suc k) zero port h u f =
      let here : port + 0 ≡ port = omega arith in
      free_here (bind server.listen_host port) (listen_ports bind server k (suc port))
        (subst (λ q. is_in_use (bind server.listen_host q) ≡ false) here f)
      ∙ ap (λ q. taken server (bind server.listen_host q)) (sym here)
  first_free (suc k) (suc d) port h u f =
      let there : suc port + d ≡ port + suc d = omega arith in
      let rest =
        first_free k d (suc port) (omega arith) (λ q a b. u q (omega (arith, a)) (omega (arith, b)))
          (subst (λ q. is_in_use (bind server.listen_host q) ≡ false) (sym there) f) in
      ap (λ b. after_bind b (listen_ports bind server k (suc port)))
        (u port (omega arith) (omega arith))
      ∙ (rest ∙ ap (λ q. taken server (bind server.listen_host q)) there)

  all_in_use :
      (k port : ℕ)
      → AllInUse port (port + k)
      → listen_ports bind server k port ≡ no_port server.listen_start_port
  unfolding listen_ports
  all_in_use zero port u = refl
  all_in_use (suc k) port u =
      ap (λ b. after_bind b (listen_ports bind server k (suc port)))
        (u port (omega arith) (omega arith))
      ∙ all_in_use k (suc port) (λ q a b. u q (omega (arith, a)) (omega (arith, b)))

-- What the search gives if it comes to a port: what that port gives, or an error beyond the last.
abbrev pub comes_to : (Bytes → ℕ → Bound) → Server → ℕ → Listened
comes_to bind server port =
    if ltb max_port port
    then no_port server.listen_start_port
    else taken server (bind server.listen_host port)

checked_port-bounds : (port : ℤ) (n : ℕ) → checked_port port ≡ some n → (1 ≤ n) × (n ≤ max_port)
unfolding checked_port
checked_port-bounds (negsuc k) n e = cc
checked_port-bounds (pos zero) n e = ground arith
checked_port-bounds (pos (suc k)) n e = ground arith

new_server_at-bounds :
    (properties : Option Properties) (cfg : Config) (server : Server) (port : Option ℕ)
    → ((n : ℕ) → port ≡ some n → (1 ≤ n) × (n ≤ max_port))
    → new_server_at properties cfg port ≡ ok server
    → (1 ≤ server.listen_start_port) × (server.listen_start_port ≤ max_port)
unfolding new_server_at
new_server_at-bounds properties cfg server none g e = cc
new_server_at-bounds properties cfg server (some n) g e =
    let b = g n refl in (ground arith, ground arith)

-- A server that NewServer makes starts at a port from 1 to 65535.
new_server-bounds :
    (properties : Option Properties) (cfg : Config) (server : Server)
    → new_server properties cfg ≡ ok server
    → (1 ≤ server.listen_start_port) × (server.listen_start_port ≤ max_port)
new_server-bounds properties cfg server e =
    unfold new_server in
    let go = new_server_at-bounds properties cfg server in
    go (checked_port cfg.listen_start_port) (checked_port-bounds cfg.listen_start_port) e

-- If NewServer accepts the settings, and every port from the server's start port up to a port p is in
-- use, where p is beyond 65535 or is not in use itself, then Listen comes to p: it returns p's listener
-- or the error of binding it, and beyond 65535 the error that no port is available.
pub listen-comes_to :
    (bind : Bytes → ℕ → Bound) (properties : Option Properties) (cfg : Config) (server : Server)
    (p : ℕ)
    → new_server properties cfg ≡ ok server
    → server.listen_start_port ≤ p
    → AllInUse bind server server.listen_start_port p
    → (max_port < p) ⊎ (is_in_use (bind server.listen_host p) ≡ false)
    → listen bind server ≡ comes_to bind server p
unfolding listen
listen-comes_to bind properties cfg server p n h u f =
    let s : ℕ = server.listen_start_port in
    let low : s ≤ max_port = (new_server-bounds properties cfg server n).1 in
    let d : ℕ = p - s in
    let at_p : s + d ≡ p = omega arith in
    elim (Bool-cases (ltb max_port p)) [
      | inl e ↦ rw e (
          all_in_use bind server (suc max_port - s) s
            λ q a b. u q a (omega (arith, b, ltb→lt max_port p e)))
      | inr e ↦
          let free : is_in_use (bind server.listen_host p) ≡ false = elim f [
            | inl g ↦ absurd (ground arith)
            | inr g ↦ g
          ] in
          rw e (
            first_free bind server (suc max_port - s) d s (ground arith)
              (λ q a b. u q a (omega (arith, b)))
              (subst (λ q. is_in_use (bind server.listen_host q) ≡ false) (sym at_p) free)
            ∙ ap (λ q. taken server (bind server.listen_host q)) at_p)
    ]
