-- ===== src/Daemon/Handoff/Spec.antt =====
-- The list of descriptors on the command line, read back by the new daemon.
use adb_tcp_bridge.Common.{
  ℕ, zero, suc, ◌+◌, ◌^◌, ◌≤◌, ◌<◌, ◌≡◌, refl, ap, ◌∙◌, false, some, [], ◌∷◌, ◌++◌, map, arith,
  Bytes, ok, ltb, ◌==◌, length, All,
}
use adb_tcp_bridge.Strconv.{itoa}
use adb_tcp_bridge.Strconv.Decimal.{IsDigit, decimal-digits, atoi, atoi-itoa}
use adb_tcp_bridge.Strings.{is_space, trim_left, trim_right, trim_space, split_on, join_by}
use adb_tcp_bridge.Daemon.Handoff.{
  first_fd, fds_from, fd_spec, usable_fd, parse_fds, parse_inherit_fds,
}

itoa-digits : (n : ℕ) → All IsDigit (itoa n)
unfolding itoa
itoa-digits n = decimal-digits (n + 1) n

split_on-digits : (s : Bytes) → All IsDigit s → split_on b',' s ≡ s ∷ []
unfolding split_on
split_on-digits [] d = refl
split_on-digits (c ∷ s) (d, ds) =
    let other : (c == b',') ≡ false = ground arith in rw (split_on-digits s ds, other) refl

split_on-append :
    (s rest : Bytes) → All IsDigit s → split_on b',' (s ++ (b',' ∷ rest)) ≡ s ∷ split_on b',' rest
unfolding split_on
split_on-append [] rest d = refl
split_on-append (c ∷ s) rest (d, ds) =
    let other : (c == b',') ≡ false = ground arith in rw (split_on-append s rest ds, other) refl

split_on-join_by :
    (fd k : ℕ)
    → split_on b',' (join_by b',' (map itoa (fds_from fd (suc k)))) ≡ map itoa (fds_from fd (suc k))
unfolding join_by
split_on-join_by fd zero = split_on-digits (itoa fd) (itoa-digits fd)
split_on-join_by fd (suc k) =
    split_on-append (itoa fd) _ (itoa-digits fd)
    ∙ ap (λ parts. itoa fd ∷ parts) (split_on-join_by (suc fd) k)

digit-is_space : (c : ℕ) → IsDigit c → is_space c ≡ false
digit-is_space c d = ground arith

trim_left-digits : (s : Bytes) → All IsDigit s → trim_left s ≡ s
unfolding trim_left
trim_left-digits [] d = refl
trim_left-digits (c ∷ s) (d, ds) = rw (digit-is_space c d) refl

trim_right-digits : (s : Bytes) → All IsDigit s → trim_right s ≡ s
unfolding trim_right
trim_right-digits [] d = refl
trim_right-digits (c ∷ []) (d, ds) = rw (digit-is_space c d) refl
trim_right-digits (c ∷ c' ∷ s) (d, ds) = rw (trim_right-digits (c' ∷ s) ds, trim_right) refl

trim_space-itoa : (n : ℕ) → trim_space (itoa n) ≡ itoa n
trim_space-itoa n =
    ap trim_right (trim_left-digits (itoa n) (itoa-digits n))
    ∙ trim_right-digits (itoa n) (itoa-digits n)

parse_fds-fds_from :
    (fd k : ℕ)
    → 3 ≤ fd
    → fd + k < 2 ^ 63
    → parse_fds (map itoa (fds_from fd k)) ≡ ok (fds_from fd k)
unfolding parse_fds
parse_fds-fds_from fd zero h b = refl
parse_fds-fds_from fd (suc k) h b =
    let read : usable_fd (atoi (trim_space (itoa fd))) ≡ some fd =
      ap (λ s. usable_fd (atoi s)) (trim_space-itoa fd)
      ∙ ap usable_fd (atoi-itoa fd (omega arith))
      ∙ ground arith in
    rw (read, parse_fds, parse_fds-fds_from (suc fd) k (omega arith) (omega arith)) refl

-- The list that a handoff passes for k files, of which there are at least the control socket and the
-- pipe, and fewer than 2 ^ 62, is read by the new daemon as the descriptors from 3 on, one for each file,
-- in order.
pub parse_inherit_fds-fd_spec :
    (k : ℕ) → 2 ≤ k → k < 2 ^ 62 → parse_inherit_fds (fd_spec k) ≡ ok (fds_from first_fd k)
unfolding parse_inherit_fds fd_spec
parse_inherit_fds-fd_spec zero h b = absurd (omega arith)
parse_inherit_fds-fd_spec (suc zero) h b = absurd (omega arith)
parse_inherit_fds-fd_spec (suc (suc k)) h b =
    let two : ltb (length (map itoa (fds_from first_fd (suc (suc k))))) 2 ≡ false = ground arith in
    rw (split_on-join_by first_fd (suc k), two)
      (parse_fds-fds_from first_fd (suc (suc k)) (omega arith) (omega arith))
