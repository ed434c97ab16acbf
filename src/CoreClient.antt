-- ===== src/CoreClient.antt =====
-- Client of core/cs.go: the pool of channels of a client. A channel is named by its address, and
-- `heap` says what each address holds, so that the maps, which hold pointers, share the objects.
-- `dials` is what Dialer.Dial will answer, in order, and a failure then. Times are milliseconds of
-- one clock. Each access under `connsLck` is one step.
pub mod Closing
pub mod Dialing
pub mod Loop
pub mod Pooling
pub mod Piping
pub mod Sharing
pub mod Tunnel
use gocs.Prelude.{
  ℕ, zero, suc, ◌+◌, ◌-◌, Bool, true, false, Option, none, some, List, [], ◌∷◌, Bytes, codes, ltb,
  length, eqb, if◌then◌else◌, ◌==◌, bytes_eq,
}
use gocs.Prelude.Keys.{add, remove}
use gocs.Errors.{Error, errorf, external, Result, ok, err}
use gocs.Channel.{
  Frame, Conn, Raw, new_channel_conn, cmd_conn_dial, read_frame, write_command, close,
}

pub record Client : Type 0 where
  pub buffer_size : ℕ
  pub max_idle : ℕ
  pub keep_idle : ℕ
  pub try_max : ℕ
  pub conns : List ℕ
  pub idles : List ℕ
  pub heap : ℕ → Conn
  pub next_key : ℕ
  pub dials : List (Result Raw)
  pub running : Bool
  pub exits : ℕ

pub new_client : ℕ → (ℕ → Conn) → List (Result Raw) → Client
new_client buffer_size heap dials = record {
  buffer_size = buffer_size;
  max_idle = 100;
  keep_idle = 10000;
  try_max = 5;
  conns = [];
  idles = [];
  heap = heap;
  next_key = 0;
  dials = dials;
  running = true;
  exits = 0;
}

-- Write through the pointer k.
abbrev pub store : ℕ → Conn → Client → Client
store k conn c = record c { heap = λ j. if eqb k j then conn else c.heap j }

abbrev pub next_dial : List (Result Raw) → Result Raw
next_dial [] = err (external (codes "no dialer"))
next_dial (r ∷ rest) = r

abbrev pub later_dials : List (Result Raw) → List (Result Raw)
later_dials [] = []
later_dials (r ∷ rest) = rest

-- The dial of pullConn, and the new channel in the set of those that are not idle.
abbrev dial_new : ℕ → Client → Result Raw → Result ℕ × Client
dial_new now c (err e) = (err e, c)
dial_new now c (ok raw) = (
  ok c.next_key,
  record c {
    conns = add c.next_key c.conns;
    heap = λ j. if eqb c.next_key j then new_channel_conn c.next_key now raw else c.heap j;
    next_key = suc c.next_key;
  },
)

-- The key that the range over a map that is not empty yields first: any of them, as `pick` says.
unfoldable pub first_key : ℕ → ℕ → List ℕ → ℕ
first_key pick k [] = k
first_key zero k (j ∷ js) = k
first_key (suc pick) k (j ∷ js) = first_key pick j js

unfoldable pub pull_conn : ℕ → ℕ → Client → Result ℕ × Client
unfolding first_key
pull_conn now pick c = elim c.idles [
  | [] ↦ dial_new now (record c { dials = later_dials c.dials }) (next_dial c.dials)
  | k ∷ ks ↦ let key = first_key pick k ks in (ok key, record c { idles = remove key c.idles })
]

-- The loop of pushConn for the oldest idle channel, from the best so far and its time on.
pub oldest : (ℕ → Conn) → ℕ → Option ℕ → List ℕ → Option ℕ
oldest heap time best [] = best
oldest heap time best (k ∷ ks) =
    let later = oldest heap time best ks in
    let older = oldest heap (heap k).last_used (some k) ks in
    if ltb (heap k).last_used time then older else later

abbrev pub close_oldest : Client → Option ℕ → Client
close_oldest c none = c
close_oldest c (some k) = store k (close (c.heap k)) c

-- The part of pushConn for a full pool.
pub make_room : ℕ → Client → Client
unfolding oldest
make_room now c =
    if ltb (length c.idles) c.max_idle then c else close_oldest c (oldest c.heap now none c.idles)

pub push_conn : ℕ → ℕ → Client → Client
unfolding make_room
push_conn now k c =
    let c' = make_room now c in record c' { conns = remove k c'.conns; idles = add k c'.idles }

-- One idle channel of timeoutConn.
abbrev pub expire : ℕ → ℕ → Client → Client
expire now k c =
    if ltb c.keep_idle (now - (c.heap k).last_used)
    then record c {
      heap = λ j. if eqb k j then close (c.heap k) else c.heap j;
      idles = remove k c.idles;
    }
    else c

pub expire_all : ℕ → List ℕ → Client → Client
expire_all now [] c = c
expire_all now (k ∷ ks) c = expire_all now ks (expire now k c)

pub timeout_conn : ℕ → Client → Client
unfolding expire_all
timeout_conn now c = expire_all now c.idles c

-- The loop of Close over the channels that are not idle.
pub close_all : List ℕ → Client → Client
close_all [] c = c
close_all (k ∷ ks) c = close_all ks (store k (close (c.heap k)) c)

-- Close; the message to procLoop is one more in the channel `exit`.
pub close_client : Client → Client
unfolding close_all
close_client c =
    let c' = close_all c.conns (record c { running = false }) in record c' { exits = suc c'.exits }

-- How a try of DialBack ends.
pub data Attempt : Type 0 where
  failed : Error → Attempt
  connected : ℕ → Frame → Attempt

abbrev pub after_back : ℕ → Client → Result Frame × Conn → Attempt × Client
after_back k c (err e, conn) = (failed e, store k (close conn) c)
after_back k c (ok back, conn) = (connected k back, store k conn c)

abbrev pub after_send : ℕ → Client → Option Error × Conn → Attempt × Client
after_send k c (some e, conn) = (failed e, store k (close conn) c)
after_send k c (none, conn) = after_back k c (read_frame conn)

abbrev pub after_pull : Bytes → Result ℕ × Client → Attempt × Client
after_pull target (err e, c) = (failed e, c)
after_pull target (ok k, c) = after_send k c (write_command cmd_conn_dial target (c.heap k))

pub attempt : ℕ → ℕ → Bytes → Client → Attempt × Client
unfolding pull_conn
attempt now pick target c = after_pull target (pull_conn now pick c)

-- The loop of DialBack: `left` tries from try i on; `none` where no try was made, so that `back`
-- is nil. `env i` is the time of try i, and what the range of its pullConn yields.
pub dial_loop : (ℕ → ℕ × ℕ) → Bytes → ℕ → ℕ → Option Attempt → Client → Option Attempt × Client
unfolding attempt
dial_loop env target zero i last c = (last, c)
dial_loop env target (suc left) i last c =
    let (r, c') = attempt (env i).0 (env i).1 target c in
    elim r [
      | connected k back ↦ (some (connected k back), c')
      | failed e ↦ dial_loop env target left (suc i) (some (failed e)) c'
    ]

pub dial_back : (ℕ → ℕ × ℕ) → Bytes → Client → Option Attempt × Client
unfolding dial_loop
dial_back env target c = dial_loop env target c.try_max 0 none c

-- DialConn's result; `panics` is the index into a nil `back` after no try at all.
pub data Dialed : Type 0 where
  panics : Dialed
  refused : Error → Dialed
  dialed : ℕ → Dialed

abbrev pub after_dial : ℕ → Option Attempt × Client → Dialed × Client
after_dial now (none, c) = (panics, c)
after_dial now (some (failed e), c) = (refused e, c)
after_dial now (some (connected k back), c) =
    if back.body == codes "ok"
    then (dialed k, c)
    else (refused (errorf back.body), push_conn now k c)

pub dial_conn : (ℕ → ℕ × ℕ) → ℕ → Bytes → Client → Dialed × Client
unfolding dial_back push_conn
dial_conn env now target c = after_dial now (dial_back env target c)

abbrev pub start : Bytes → Dialed × Client → Dialed × Client
start target (dialed k, c) = (dialed k, store k (record (c.heap k) { using = target }) c)
start target (panics, c) = (panics, c)
start target (refused e, c) = (refused e, c)

pub dial_piper : (ℕ → ℕ × ℕ) → ℕ → Bytes → Client → Dialed × Client
unfolding dial_conn
dial_piper env now target c = start target (dial_conn env now target c)

-- piperConn.Close
pub close_piper : ℕ → ℕ → Client → Client
unfolding push_conn
close_piper now k c = elim (c.heap k).error [
  | some e ↦ store k (close (c.heap k)) c
  | none ↦ push_conn now k (store k (record (c.heap k) { using = [] }) c)
]

-- PipeConn, with what the copying of CopyPiper does to the channel as a parameter.
pub pipe_conn : (Conn → Conn) → (ℕ → ℕ × ℕ) → ℕ → Bytes → Client → Dialed × Client
unfolding dial_piper close_piper
pipe_conn copy env now target c =
    let (r, c') = dial_piper env now target c in
    elim r [
      | panics ↦ (panics, c')
      | refused e ↦ (refused e, c')
      | dialed k ↦ (dialed k, close_piper now k (store k (copy (c'.heap k)) c'))
    ]
