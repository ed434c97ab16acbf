-- ===== src/Udpgw/Timer/Stopping.antt =====
-- StopTimeout returns behind a StartTimeout, and waits for ever without one.
use gocs.Prelude.{ℕ, suc, ◌<◌, ◌≡◌, ◌≢◌, subst, ◌⊎◌, inl, inr, refl, true, false, some, arith}
use gocs.Udpgw.Timer.{
  absent, looping, leaving, calling, waiting, returned, Timer, idle, start_timeout, call_stop,
  send_exit, take_exit, send_wait, take_wait, Move, exit_sent, exit_taken, wait_sent, wait_taken,
  Moves, unmoved, moved,
}

-- What a stop has come to behind its first moves.
abbrev call_made : Timer
call_made = record idle { running = true; loop = looping; caller = calling }

abbrev exit_waits : Timer
exit_waits = record call_made { exit_full = true; caller = waiting }

abbrev loop_left : Timer
loop_left = record call_made { loop = leaving; caller = waiting }

abbrev loop_gone : Timer
loop_gone = record call_made { loop = absent; wait_full = true; caller = waiting }

-- Where a stop stands behind so many moves.
data Stands : ℕ → Timer → Type 0 where
  called : Stands 0 call_made
  told : Stands 1 exit_waits
  left : Stands 2 loop_left
  reported : Stands 3 loop_gone
  over : Stands 4 idle

some_same : (t : Timer) {u : Timer} → some t ≡ some u → t ≡ u
some_same t k = ground arith

Move-Stands : {n : ℕ} {t u : Timer} → Stands n t → Move t u → Stands (suc n) u
unfolding send_exit take_exit send_wait take_wait
Move-Stands called (exit_sent h) = subst (Stands 1) (some_same exit_waits h) told
Move-Stands called (exit_taken h) = absurd (ground arith)
Move-Stands called (wait_sent h) = absurd (ground arith)
Move-Stands called (wait_taken h) = absurd (ground arith)
Move-Stands told (exit_sent h) = absurd (ground arith)
Move-Stands told (exit_taken h) = subst (Stands 2) (some_same loop_left h) left
Move-Stands told (wait_sent h) = absurd (ground arith)
Move-Stands told (wait_taken h) = absurd (ground arith)
Move-Stands left (exit_sent h) = absurd (ground arith)
Move-Stands left (exit_taken h) = absurd (ground arith)
Move-Stands left (wait_sent h) = subst (Stands 3) (some_same loop_gone h) reported
Move-Stands left (wait_taken h) = absurd (ground arith)
Move-Stands reported (exit_sent h) = absurd (ground arith)
Move-Stands reported (exit_taken h) = absurd (ground arith)
Move-Stands reported (wait_sent h) = absurd (ground arith)
Move-Stands reported (wait_taken h) = subst (Stands 4) (some_same idle h) over
Move-Stands over (exit_sent h) = absurd (ground arith)
Move-Stands over (exit_taken h) = absurd (ground arith)
Move-Stands over (wait_sent h) = absurd (ground arith)
Move-Stands over (wait_taken h) = absurd (ground arith)

Moves-Stands : {n : ℕ} {u : Timer} → Moves call_made n u → Stands n u
Moves-Stands unmoved = called
Moves-Stands (moved ms m) = Move-Stands (Moves-Stands ms) m

-- What is left of a stop: it has returned, behind its fourth move, or it can move.
abbrev pub Goes : ℕ → Timer → Type 0
Goes n u = ((n ≡ 4) × (u ≡ idle)) ⊎ ((n < 4) × (v : Timer) × Move u v)

Stands-Goes : {n : ℕ} {u : Timer} → Stands n u → Goes n u
unfolding send_exit take_exit send_wait take_wait
Stands-Goes called = inr (omega arith, exit_waits, exit_sent refl)
Stands-Goes told = inr (omega arith, loop_left, exit_taken refl)
Stands-Goes left = inr (omega arith, loop_gone, wait_sent refl)
Stands-Goes reported = inr (omega arith, idle, wait_taken refl)
Stands-Goes over = inl (refl, refl)

-- A StopTimeout behind the first StartTimeout returns: however its moves and those of the goroutine
-- follow each other, behind fewer than four one of them can move, and behind the fourth the call has
-- returned and the timer is as it was declared, so that it can be started again.
pub stop_timeout-returns :
    (n : ℕ) (t u : Timer) → start_timeout idle ≡ some t → Moves (call_stop t) n u → Goes n u
unfolding start_timeout
stop_timeout-returns n t u h ms =
    Stands-Goes (Moves-Stands (subst (λ x. Moves x n u) (call_same t h) ms))
  where
    call_same :
        (t : Timer)
        → some (record idle { running = true; loop = looping }) ≡ some t
        → call_stop t ≡ call_made
    call_same t h = ground arith

-- Without a goroutine nobody answers.
abbrev IsAlone : Timer → Type 0
IsAlone t = (t.loop ≡ absent) × (t.wait_full ≡ false) × (t.caller ≢ returned)

Move-IsAlone : {t u : Timer} → Move t u → IsAlone t → IsAlone u
unfolding send_exit take_exit send_wait take_wait
Move-IsAlone {t} (exit_sent h) (l, w, c) = ground arith
Move-IsAlone {t} (exit_taken h) (l, w, c) = ground arith
Move-IsAlone {t} (wait_sent h) (l, w, c) = ground arith
Move-IsAlone {t} (wait_taken h) (l, w, c) = ground arith

Moves-IsAlone : {t : Timer} {n : ℕ} {u : Timer} → Moves t n u → IsAlone t → IsAlone u
Moves-IsAlone unmoved a = a
Moves-IsAlone (moved ms m) a = Move-IsAlone m (Moves-IsAlone ms a)

-- A StopTimeout of a timer that was never started, or is stopped already, never returns.
pub stop_timeout-hangs : (n : ℕ) (u : Timer) → Moves (call_stop idle) n u → u.caller ≢ returned
stop_timeout-hangs n u ms = (Moves-IsAlone ms (refl, refl, λ e. absurd (ground arith))).2
