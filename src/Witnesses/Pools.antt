-- ===== src/Witnesses/Pools.antt =====
-- Concrete pools for Client of core/cs.go.
use gocs.Prelude.{
  ℕ, ◌≤◌, ◌≡◌, ◌⊎◌, refl, true, false, none, List, [], ◌∷◌, codes, arith, eqb_iff, All,
}
use gocs.Prelude.Keys.{elem}
use gocs.Errors.{ok}
use gocs.Channel.{Frame, Conn, cmd_conn_dial, cmd_conn_back, close}
use gocs.CoreServer.{PiperDialer}
use gocs.CoreClient.Piping.{Work, Job, pipes, requests, forwards, run_jobs, run_jobs-Keeps}
use gocs.CoreClient.{Client, pull_conn, push_conn, timeout_conn, dial_piper, close_piper, first_key}
use gocs.CoreClient.Sharing.{
  Shared, Keeps, Reach, here, after, pulls, IsExclusive, Reach-IsExclusive,
}
use gocs.CoreClient.Dialing.{DialedFrom, dial_piper-DialedFrom}
use gocs.CoreClient.Pooling.{IsFirst, push_conn-overflows, close_piper-due}

abbrev answer : Frame
answer = record { command = cmd_conn_back; body = codes "ok" }

abbrev heap : ℕ → Conn
heap k = record {
  key = k;
  last_used = 0;
  error = none;
  using = [];
  inbox = ok answer ∷ [];
  faults = [];
  sent = [];
  raw_closed = false;
}

abbrev pool : List ℕ → Client
pool idles = record {
  buffer_size = 1024;
  max_idle = 1;
  keep_idle = 100;
  try_max = 2;
  conns = [];
  idles = idles;
  heap = heap;
  next_key = 1;
  dials = [];
  running = true;
  exits = 0;
}

-- Channel 0 is idle.
abbrev idle : Shared
idle = record { client = pool (0 ∷ []); held = [] }

-- Channel 0 is held.
abbrev busy : Shared
busy = record { client = pool []; held = 0 ∷ [] }

idle-IsExclusive : IsExclusive idle
unfolding elem
idle-IsExclusive = record {
  once = tt;
  apart = λ k h. absurd (ground arith);
  clean = λ k h. refl;
  idle_below = λ k h. ground (arith, eqb_iff 0 k);
  held_below = λ k h. absurd (ground arith);
}

busy-IsExclusive : IsExclusive busy
unfolding elem
busy-IsExclusive = record {
  once = (refl, tt);
  apart = λ k h. refl;
  clean = λ k h. absurd (ground arith);
  idle_below = λ k h. absurd (ground arith);
  held_below = λ k h. ground (arith, eqb_iff 0 k);
}

abbrev pulled : Shared
pulled = record { client = (pull_conn 5 0 idle.client).1; held = 0 ∷ [] }

idle-Reach : Reach idle pulled
unfolding pull_conn first_key
idle-Reach = after here (pulls 5 0 0 (pull_conn 5 0 idle.client).1 refl refl)

Reach-IsExclusive_example : IsExclusive pulled
Reach-IsExclusive_example = Reach-IsExclusive idle-IsExclusive idle-Reach

abbrev env : ℕ → ℕ × ℕ
env i = (i, 0)

dial_piper-DialedFrom_example :
    DialedFrom idle [] (codes "tcp://web:80") (dial_piper env 9 (codes "tcp://web:80") idle.client)
dial_piper-DialedFrom_example =
    dial_piper-DialedFrom env 9 (codes "tcp://web:80") idle idle-IsExclusive

busy_holds : elem 0 busy.held ≡ true
unfolding elem
busy_holds = refl

push_conn-overflows_example :
    ((push_conn 7 3 idle.client).idles ≡ 3 ∷ 0 ∷ [])
    × (All (λ j. 7 ≤ (idle.client.heap j).last_used) (0 ∷ [])
        ⊎ ((o : ℕ) × IsFirst idle.client.heap 7 (0 ∷ []) o
            × ((push_conn 7 3 idle.client).heap o ≡ close (idle.client.heap o))
            × (elem o (push_conn 7 3 idle.client).idles ≡ true)))
unfolding elem
push_conn-overflows_example = push_conn-overflows 7 3 idle.client refl (omega arith)

close_piper-due_test : elem 0 (timeout_conn 200 (close_piper 200 0 busy.client)).idles ≡ false
close_piper-due_test = close_piper-due 200 0 busy.client refl refl

-- The other end of channel 0, and a dialer that reaches everything.
abbrev far : Conn
far = record (heap 0) {
  inbox = ok (record { command = cmd_conn_dial; body = codes "tcp://web:80" }) ∷ [];
}

abbrev reaching : PiperDialer
reaching n target = ok (λ c. c)

abbrev job : Work → Job
job w = record { copy = λ c. c; env = env; now = 9; work = w }

abbrev jobs : List Job
jobs =
    job (pipes (codes "tcp://web:80"))
    ∷ job (requests (codes "tcp") (codes "web:80"))
    ∷ job (forwards (codes "tcp://web:22"))
    ∷ []

run_jobs-Keeps_example :
    Keeps idle (record { client = run_jobs jobs idle.client; held = idle.held })
    × IsExclusive (record { client = run_jobs jobs idle.client; held = idle.held })
run_jobs-Keeps_example = run_jobs-Keeps jobs idle idle-IsExclusive
