-- ===== src/Client/Waiting.antt =====
-- The waiting for a daemon ends.
use native.Mathlib.Decide.{ℕ_discrete}
use adb_tcp_bridge.Common.{
  ℕ, zero, suc, ◌+◌, ◌*◌, ◌≤◌, ◌<◌, ◌≡◌, sym, subst, true, false, arith, ltb, ltb→lt, if_elim,
}
use adb_tcp_bridge.Client.{
  ready_pause, shows_ready, Waited, ready, timed_out, cancelled, Rounds, wait_rounds, wait_ready,
}

-- When a round begins, counted from 0, if the first begins now: after the round before it and its pause.
unfoldable pub began : Rounds → ℕ → ℕ → ℕ
began rounds now zero = now
began rounds now (suc k) = began rounds now k + rounds.takes k + ready_pause

abbrev pub over : Rounds → ℕ → ℕ → ℕ
over rounds now k = began rounds now k + rounds.takes k

-- A round that met no ready daemon, was over by the deadline, and in which nothing was cancelled.
pub record Passed (rounds : Rounds) (now deadline k : ℕ) : Type 0 where
  pub unready : shows_ready (rounds.meets k) ≡ false
  pub in_time : over rounds now k ≤ deadline
  pub runs_on : rounds.cancels k ≡ false

-- How WaitReady can end, in a round before which all were passed: it met a ready daemon; it met none
-- and was over after the deadline; or it met none, was over in time, and the context was cancelled.
-- Running on is no end.
pub data Ended (rounds : Rounds) (now deadline : ℕ) : Waited → Type 0 where
  met :
      (k : ℕ)
      → ((j : ℕ) → j < k → Passed rounds now deadline j)
      → shows_ready (rounds.meets k) ≡ true
      → Ended rounds now deadline ready
  late :
      (k : ℕ)
      → ((j : ℕ) → j < k → Passed rounds now deadline j)
      → shows_ready (rounds.meets k) ≡ false
      → deadline < over rounds now k
      → Ended rounds now deadline timed_out
  stopped :
      (k : ℕ)
      → ((j : ℕ) → j < k → Passed rounds now deadline j)
      → shows_ready (rounds.meets k) ≡ false
      → over rounds now k ≤ deadline
      → rounds.cancels k ≡ true
      → Ended rounds now deadline cancelled

module _ (rounds : Rounds) (now deadline : ℕ) where
  -- All rounds before one were passed.
  abbrev Before : ℕ → Type 0
  Before k = (j : ℕ) → j < k → Passed rounds now deadline j

  Before-suc : (k : ℕ) → Before k → Passed rounds now deadline k → Before (suc k)
  Before-suc k b p j h = elim (ℕ_discrete j k) [
    | yes e ↦ subst (Passed rounds now deadline) (sym e) p
    | no n ↦ b j (omega arith)
  ]

  one_round :
      (fuel k : ℕ)
      → Before k
      → (Passed rounds now deadline k
          → Ended rounds now deadline
              (wait_rounds rounds deadline fuel (suc k) (over rounds now k + ready_pause)))
      → Ended rounds now deadline (wait_rounds rounds deadline (suc fuel) k (began rounds now k))
  unfolding wait_rounds
  one_round fuel k b next =
      let E = Ended rounds now deadline in
      if_elim E (shows_ready (rounds.meets k)) (λ e. met k b e)
        λ e.
          if_elim E (ltb deadline (over rounds now k))
            (λ l. late k b e (ltb→lt deadline (over rounds now k) l))
            λ l.
              if_elim E (rounds.cancels k) (λ c. stopped k b e (ground arith) c)
                λ c. next (record { unready = e; in_time = ground arith; runs_on = c })

  wait_rounds-Ended :
      (fuel k : ℕ)
      → deadline < began rounds now k + fuel * ready_pause
      → Before k
      → Ended rounds now deadline (wait_rounds rounds deadline (suc fuel) k (began rounds now k))
  unfolding began
  wait_rounds-Ended zero k h b = one_round zero k b λ p. absurd (omega (arith, h, p.in_time))
  wait_rounds-Ended (suc fuel) k h b =
      one_round (suc fuel) k b
        λ p. wait_rounds-Ended fuel (suc k) (omega (arith, h, p.in_time)) (Before-suc k b p)

-- WaitReady always ends, whatever the daemon does: with fuel for one more round than the timeout has
-- pauses of 200 ms, there is a round such that all rounds before it met no ready daemon, were over by the
-- deadline and not cancelled, and either that round meets a ready daemon, and the wait succeeds; or it
-- meets none and is over only after the deadline, and the wait times out; or it meets none, is over in
-- time, and the context is cancelled, and so is the wait. The rounds follow one another with the pause
-- between them.
pub wait_ready-Ended :
    (rounds : Rounds) (timeout fuel now : ℕ)
    → timeout < fuel * ready_pause
    → Ended rounds now (now + timeout) (wait_ready rounds timeout (suc fuel) now)
unfolding wait_ready began
wait_ready-Ended rounds timeout fuel now h =
    wait_rounds-Ended rounds now (now + timeout) fuel 0 (omega (arith, h))
      λ j l. absurd (omega (arith, l))
