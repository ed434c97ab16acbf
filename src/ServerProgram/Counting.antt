-- ===== src/ServerProgram/Counting.antt =====
-- The wait group counts the goroutines.
use gocs.Prelude.{
  ℕ, zero, suc, ◌+◌, ◌≤◌, ◌≡◌, refl, sym, subst, ◌∙◌, Bool, true, false, if◌then◌else◌, inl, inr,
  codes, Bool-cases, Option, none, some, List, [], ◌∷◌, Bytes, nat_eq, bytes_eq, eqb_iff, arith,
  length,
}
use gocs.Prelude.Dict.{Dict, lookup, delete, Distinct, Distinct-delete, lookup-delete}
use gocs.Errors.{Error, errorf}
use gocs.Auth.{new_auth}
use gocs.Ports.{parse_listen_addr}
use gocs.ServerProgram.{
  UserFiles, Server, ServerConf, Run, new_server, spawn, spawn_all, listen_on, http_start,
  https_start, start_http, start_https, start, is_empty, timeout_of, file_of, begin_run, end_run,
  pick_restart, respawn, stop, Step, begins, ends, picks, respawns, stops, Reach, here, then_step,
}

length-delete :
    (k : ℕ) (v : Run) (m : Dict ℕ Run)
    → Distinct m
    → lookup k m ≡ some v
    → suc (length (delete k m)) ≡ length m
length-delete k v [] d h = absurd (ground arith)
length-delete k v ((j, w) ∷ m) d h =
    ground (arith, length-delete k v m, delete-none k m, eqb_iff j k)
  where
    delete-none : (k : ℕ) (m : Dict ℕ Run) → lookup k m ≡ none → delete k m ≡ m
    delete-none k [] h = refl
    delete-none k ((j, w) ∷ m) h = ground (arith, delete-none k m)

-- The goroutines have different numbers, and the wait group counts them.
pub record IsCounted (s : Server) : Type 0 where
  pub counted : s.waiting ≡ length s.pending + length s.running
  pub pending_once : Distinct s.pending
  pub running_once : Distinct s.running
  pub apart : (id : ℕ) (run : Run) → lookup id s.pending ≡ some run → lookup id s.running ≡ none
  pub pending_old : (id : ℕ) → s.next ≤ id → lookup id s.pending ≡ none
  pub running_old : (id : ℕ) → s.next ≤ id → lookup id s.running ≡ none

pub new_server-IsCounted : (conf : ServerConf) → IsCounted (new_server conf)
unfolding new_server
new_server-IsCounted conf = record {
  counted = refl;
  pending_once = tt;
  running_once = tt;
  apart = λ id run h. refl;
  pending_old = λ id h. refl;
  running_old = λ id h. refl;
}

spawn-IsCounted :
    (tls : Bool) (addr : Bytes) (s : Server) → IsCounted s → IsCounted (spawn tls addr s)
spawn-IsCounted tls addr s i = record {
  counted = ground (arith, i.counted);
  pending_once = (i.pending_old s.next (omega arith), i.pending_once);
  running_once = i.running_once;
  apart = λ id run h. ground (arith, i.apart id run, i.running_old id, eqb_iff s.next id);
  pending_old = λ id h. ground (arith, i.pending_old id, eqb_iff s.next id);
  running_old = λ id h. ground (arith, i.running_old id);
}

pub begin_run-IsCounted :
    (now id : ℕ) (run : Run) (s : Server)
    → IsCounted s
    → lookup id s.pending ≡ some run
    → IsCounted (begin_run now id run s)
unfolding begin_run
begin_run-IsCounted now id run s i h = record {
  counted = ground (arith, i.counted, length-delete id run s.pending i.pending_once h);
  pending_once = Distinct-delete id s.pending i.pending_once;
  running_once = (i.apart id run h, i.running_once);
  apart = λ j r k. ground (arith, i.apart j r, lookup-delete id j s.pending, eqb_iff id j);
  pending_old = λ j k. ground (arith, i.pending_old j, lookup-delete id j s.pending);
  running_old = λ j k. ground (arith, i.running_old j, i.pending_old j, eqb_iff id j);
}

-- The end of a running server finds the wait group above zero.
pub end_run-IsCounted :
    (id : ℕ) (run : Run) (s : Server)
    → IsCounted s
    → lookup id s.running ≡ some run
    → (t : Server) × (end_run id run s ≡ some t)
      × (suc t.waiting ≡ s.waiting)
      × (t.pending ≡ s.pending)
      × (t.closed ≡ s.closed)
      × (t.running ≡ delete id s.running)
      × (t.servers ≡ delete run.addr s.servers)
      × IsCounted t
unfolding end_run
end_run-IsCounted id run s i h = go s.waiting refl
  where
    less : suc (length (delete id s.running)) ≡ length s.running
    less = length-delete id run s.running i.running_once h

    ended : ℕ → Server
    ended n = record s {
      servers = delete run.addr s.servers;
      running = delete id s.running;
      waiting = n;
    }

    go :
        (n : ℕ)
        → s.waiting ≡ n
        → (t : Server) × ((elim n [ zero ↦ none | suc m ↦ some (ended m) ]) ≡ some t)
          × (suc t.waiting ≡ n)
          × (t.pending ≡ s.pending)
          × (t.closed ≡ s.closed)
          × (t.running ≡ delete id s.running)
          × (t.servers ≡ delete run.addr s.servers)
          × IsCounted t
    go zero e = absurd (omega (arith, i.counted, less))
    go (suc n) e = (
      ended n,
      refl,
      refl,
      refl,
      refl,
      refl,
      refl,
      record {
        counted = omega (arith, i.counted, less);
        pending_once = i.pending_once;
        running_once = Distinct-delete id s.running i.running_once;
        apart = λ j r k. ground (arith, i.apart j r, lookup-delete id j s.running);
        pending_old = i.pending_old;
        running_old = λ j k. ground (arith, i.running_old j, lookup-delete id j s.running);
      },
    )

-- What a restart and a Stop change is not counted.
unchanged-IsCounted :
    (s t : Server)
    → IsCounted s
    → t.waiting ≡ s.waiting
    → t.pending ≡ s.pending
    → t.running ≡ s.running
    → t.next ≡ s.next
    → IsCounted t
unchanged-IsCounted s t i w p r n = record {
  counted = rw (w, p, r) i.counted;
  pending_once = rw p i.pending_once;
  running_once = rw r i.running_once;
  apart = rw (p, r) i.apart;
  pending_old = rw (p, n) i.pending_old;
  running_old = rw (r, n) i.running_old;
}

pick_restart-unchanged :
    (now : ℕ) (s t : Server)
    → pick_restart now s ≡ some t
    → (t.waiting ≡ s.waiting)
      × (t.pending ≡ s.pending)
      × (t.running ≡ s.running)
      × (t.next ≡ s.next)
unfolding pick_restart
pick_restart-unchanged now s t h = ground arith

pub same_some : (u t : Server) → some u ≡ some t → u ≡ t
same_some u t h = ground arith

pub Step-IsCounted : {s t : Server} → Step s t → IsCounted s → IsCounted t
unfolding respawn stop
Step-IsCounted {s} (begins now id run h) i = begin_run-IsCounted now id run s i h
Step-IsCounted {s} {t} (ends id run h e) i =
    let (u, p, w, a, b, c, d, k) = end_run-IsCounted id run s i h in
    subst IsCounted (same_some u t (sym p ∙ e)) k
Step-IsCounted {s} {t} (picks now r e) i =
    let (a, b, c, d) = pick_restart-unchanged now s t e in unchanged-IsCounted s t i a b c d
Step-IsCounted {s} (respawns addr r) i =
    spawn-IsCounted true addr (record s { restarting = none })
      (unchanged-IsCounted s (record s { restarting = none }) i refl refl refl refl)
Step-IsCounted {s} stops i = unchanged-IsCounted s (stop s) i refl refl refl refl

pub Reach-IsCounted : {s t : Server} → Reach s t → IsCounted s → IsCounted t
Reach-IsCounted here i = i
Reach-IsCounted (then_step r x) i = Step-IsCounted x (Reach-IsCounted r i)

spawn_all-IsCounted :
    (tls : Bool) (addrs : List Bytes) (s : Server) → IsCounted s → IsCounted (spawn_all tls addrs s)
unfolding spawn_all
spawn_all-IsCounted tls [] s i = i
spawn_all-IsCounted tls (addr ∷ addrs) s i =
    spawn_all-IsCounted tls addrs (spawn tls addr s) (spawn-IsCounted tls addr s i)

listen_on-IsCounted :
    (tls : Bool) (r : List Bytes × Option Error) (s : Server)
    → IsCounted s
    → IsCounted (listen_on tls r s).1
listen_on-IsCounted tls (addrs, some e) s i = i
listen_on-IsCounted tls (addrs, none) s i = spawn_all-IsCounted tls addrs s i

start_https-IsCounted : (s : Server) → IsCounted s → IsCounted (start_https s)
unfolding https_start
start_https-IsCounted s i = elim (Bool-cases (is_empty s.conf.https_addr)) [
  | inl without ↦ rw without i
  | inr named ↦ rw named (listen_on-IsCounted true (parse_listen_addr s.conf.https_addr) s i)
]

start_http-IsCounted : (s : Server) → IsCounted s → IsCounted (start_http s)
unfolding http_start
start_http-IsCounted s i = elim (Bool-cases (is_empty s.conf.http_addr)) [
  | inl without ↦ rw without i
  | inr named ↦ rw named (listen_on-IsCounted false (parse_listen_addr s.conf.http_addr) s i)
]

abbrev pub configured : UserFiles → Server → Server
configured read s = record s {
  auth = some (new_auth read.0 s.conf.manager (file_of read.1 s.conf.user_file));
  timeout = timeout_of s.conf s.timeout;
}

pub start-IsCounted : (read : UserFiles) (s : Server) → IsCounted s → IsCounted (start read s).1
unfolding start
start-IsCounted read s i = go (is_empty s.conf.http_addr) (is_empty s.conf.https_addr)
  where
    ready : IsCounted (configured read s)
    ready = unchanged-IsCounted s (configured read s) i refl refl refl refl

    go :
        (a b : Bool)
        → IsCounted
            (if◌then◌else◌ {A = Option Error × Server} a
              (if b
                then (some (errorf (codes "http_addr and https_addr is empty")), configured read s)
                else (none, start_https (configured read s)))
              (none, start_https (start_http (configured read s)))).1
    go true true = ready
    go true false = start_https-IsCounted (configured read s) ready
    go false b =
        start_https-IsCounted (start_http (configured read s))
          (start_http-IsCounted (configured read s) ready)

-- Behind the Start of a new server, whatever it answered, and after any interleaving of listeners
-- that begin and end, restarts, one at a time, and Stops, the wait group counts the listeners that are pending or
-- running, and a running listener that ends does not drive it below zero.
pub Reach-waits :
    (conf : ServerConf) (read : UserFiles) (s : Server) (id : ℕ) (run : Run)
    → Reach (start read (new_server conf)).1 s
    → lookup id s.running ≡ some run
    → (s.waiting ≡ length s.pending + length s.running)
      × (t : Server) × (end_run id run s ≡ some t)
      × (suc t.waiting ≡ s.waiting)
Reach-waits conf read s id run r h =
    let i =
      Reach-IsCounted r (start-IsCounted read (new_server conf) (new_server-IsCounted conf)) in
    let (t, e, w, a, b, c, d, k) = end_run-IsCounted id run s i h in (i.counted, t, e, w)
