-- ===== src/Udpgw/Timer.antt =====
-- StartTimeout, StopTimeout and runTimeout of udpgw/udpgw.go: one goroutine that sweeps at every tick,
-- and two channels that hold one item each. A call of StopTimeout goes from its send over its receive
-- to its end; each send, each receive and each tick is one move.
pub mod Stopping
use gocs.Prelude.{Bool, true, false, not, ◌&&◌, Option, none, some, ◌≡◌, ℕ, suc, if◌then◌else◌}

-- The goroutine of runTimeout: none, in its loop, or behind it, in front of its send.
pub data Loop : Type 0 where
  absent looping leaving : Loop

-- A call of StopTimeout: in front of its send, in front of its receive, or returned.
pub data Caller : Type 0 where
  calling waiting returned : Caller

pub record Timer : Type 0 where
  pub running : Bool
  pub exit_full : Bool
  pub wait_full : Bool
  pub loop : Loop
  pub caller : Caller

-- The globals as they are declared.
abbrev pub idle : Timer
idle = record {
  running = false;
  exit_full = false;
  wait_full = false;
  loop = absent;
  caller = returned;
}

-- StartTimeout, which panics where the flag is set.
unfoldable pub start_timeout : Timer → Option Timer
start_timeout t = if t.running then none else some (record t { running = true; loop = looping })

-- A call of StopTimeout begins.
abbrev pub call_stop : Timer → Timer
call_stop t = record t { caller = calling }

-- `timeoutExit <- 1`
unfoldable pub send_exit : Timer → Option Timer
send_exit t = elim t.caller [
  | calling ↦ if t.exit_full then none else some (record t { exit_full = true; caller = waiting })
  | waiting ↦ none
  | returned ↦ none
]

-- `case <-timeoutExit`
unfoldable pub take_exit : Timer → Option Timer
take_exit t = elim t.loop [
  | looping ↦ if t.exit_full then some (record t { exit_full = false; loop = leaving }) else none
  | leaving ↦ none
  | absent ↦ none
]

-- `timeoutWait <- 1`
unfoldable pub send_wait : Timer → Option Timer
send_wait t = elim t.loop [
  | leaving ↦ if t.wait_full then none else some (record t { wait_full = true; loop = absent })
  | looping ↦ none
  | absent ↦ none
]

-- `<-timeoutWait`, and the flag.
unfoldable pub take_wait : Timer → Option Timer
take_wait t = elim t.caller [
  | waiting ↦
      if t.wait_full
      then some (record t { wait_full = false; running = false; caller = returned })
      else none
  | calling ↦ none
  | returned ↦ none
]

-- The moves of a stop; a tick of the goroutine leaves the timer as it is, and is none of them.
pub data Move : Timer → Timer → Type 0 where
  exit_sent : {t u : Timer} → send_exit t ≡ some u → Move t u
  exit_taken : {t u : Timer} → take_exit t ≡ some u → Move t u
  wait_sent : {t u : Timer} → send_wait t ≡ some u → Move t u
  wait_taken : {t u : Timer} → take_wait t ≡ some u → Move t u

pub data Moves (t : Timer) : ℕ → Timer → Type 0 where
  unmoved : Moves t 0 t
  moved : {n : ℕ} {u v : Timer} → Moves t n u → Move u v → Moves t (suc n) v
