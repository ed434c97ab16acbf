-- ===== src/ServerProgram/Orphaning.antt =====
-- A restart that is not timely: ProcRestart sleeps for a tenth of a second, and does not wait for the
-- listener that it has closed.
use gocs.Prelude.{
  ℕ, ◌≡◌, refl, false, none, some, List, [], ◌∷◌, Bytes, nat_eq, bytes_eq, beq_bytes_iff, eqb_iff,
  arith, ap, ◌∙◌,
}
use gocs.Prelude.Dict.{Dict, lookup, insert, delete, lookup-delete}
use gocs.Prelude.Keys.{elem}
use gocs.ServerProgram.{Server, HttpServer, Run, begin_run, end_run, runs_of, stop}
use gocs.ServerProgram.Counting.{IsCounted, begin_run-IsCounted, end_run-IsCounted}

runs_of-replaced :
    (addr : Bytes) (srv : HttpServer) (m : Dict Bytes HttpServer)
    → delete addr (insert addr srv m) ≡ delete addr m
runs_of-replaced addr srv [] = ground (arith, beq_bytes_iff addr addr)
runs_of-replaced addr srv ((a, x) ∷ m) =
    ground (arith, runs_of-replaced addr srv m, beq_bytes_iff addr addr)

runs_of-delete :
    (id : ℕ) (addr : Bytes) (m : Dict Bytes HttpServer) (ids : List ℕ)
    → elem id (runs_of m ids) ≡ false
    → elem id (runs_of (delete addr m) ids) ≡ false
unfolding runs_of elem
runs_of-delete id addr [] ids h = h
runs_of-delete id addr ((a, x) ∷ m) ids h = ground (arith, runs_of-delete id addr m ids)

same_runs :
    {m n : Dict Bytes HttpServer} {ids others : List ℕ} (id : ℕ)
    → m ≡ n
    → ids ≡ others
    → elem id (runs_of m ids) ≡ elem id (runs_of n others)
same_runs id p q = rw (p, q) refl

-- A restart whose old listener ends behind the begin of the new one: the end takes the new listener
-- out of the map, and the Stop that follows leaves it running and open. The new listener, pending
-- here, is neither closed nor in the map before.
pub end_run-orphans :
    (now old new : ℕ) (run again : Run) (s : Server)
    → IsCounted s
    → lookup old s.running ≡ some run
    → lookup new s.pending ≡ some again
    → again.addr ≡ run.addr
    → elem new (runs_of s.servers s.closed) ≡ false
    → (t : Server) × (end_run old run (begin_run now new again s) ≡ some t)
      × (lookup new (stop t).running ≡ some again)
      × (elem new (stop t).closed ≡ false)
unfolding begin_run stop
end_run-orphans now old new run again s i h k a f =
    let b = begin_run-IsCounted now new again s i k in
    let (t, e, w, p, c, r, m, d) = end_run-IsCounted old run (begin_run now new again s) b other in
    (t, e, ap (lookup new) r ∙ kept, same_runs new m c ∙ lost)
  where
    apart : lookup new s.running ≡ none
    apart = i.apart new again k

    other : lookup old ((new, again) ∷ s.running) ≡ some run
    other = ground (arith, h, apart, eqb_iff new old)

    kept : lookup new (delete old ((new, again) ∷ s.running)) ≡ some again
    kept = ground (
      arith,
      h,
      apart,
      eqb_iff old new,
      eqb_iff new new,
      lookup-delete old new ((new, again) ∷ s.running),
    )

    replacing : HttpServer
    replacing = record { run = new; start_time = now }

    lost :
        elem new (runs_of (delete run.addr (insert again.addr replacing s.servers)) s.closed)
        ≡ false
    lost =
        rw (a, runs_of-replaced run.addr replacing s.servers)
          (runs_of-delete new run.addr s.servers s.closed f)
