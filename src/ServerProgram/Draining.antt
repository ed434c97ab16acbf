-- ===== src/ServerProgram/Draining.antt =====
-- Behind a Stop the listeners end, and Wait returns.
use gocs.Prelude.{
  ℕ, suc, ◌+◌, ◌≡◌, ◌⊎◌, inl, inr, refl, true, some, [], ◌∷◌, nat_eq, eqb_iff, arith, subst, sym,
  ap, ◌∙◌,
}
use gocs.Prelude.Dict.{Dict, lookup, lookup-delete}
use gocs.Prelude.Keys.{elem}
use gocs.ServerProgram.{Server, Run, end_run}
use gocs.ServerProgram.Counting.{IsCounted, end_run-IsCounted, same_some}
use gocs.ServerProgram.Stopping.{IsClosed}

-- So many listeners end, one behind the other.
pub data Ends (s : Server) : ℕ → Server → Type 0 where
  none_ended : Ends s 0 s
  ended :
      {n : ℕ} {t u : Server} (id : ℕ) (run : Run)
      → Ends s n t
      → lookup id t.running ≡ some run
      → end_run id run t ≡ some u
      → Ends s (suc n) u

-- A server behind a Stop, with no listener still to begin.
abbrev pub IsDraining : Server → Type 0
IsDraining s = IsCounted s × (s.pending ≡ []) × IsClosed s

end_run-IsDraining :
    (id : ℕ) (run : Run) (s u : Server)
    → IsDraining s
    → lookup id s.running ≡ some run
    → end_run id run s ≡ some u
    → IsDraining u × (suc u.waiting ≡ s.waiting)
end_run-IsDraining id run s u (i, p, c) h e =
    let (t, f, w, q, d, r, m, k) = end_run-IsCounted id run s i h in
    subst (λ x. IsDraining x × (suc x.waiting ≡ s.waiting)) (same_some t u (sym f ∙ e))
      (
        (
          k,
          q ∙ p,
          λ j r' l.
              ap (elem j) d
              ∙ c j r' (ground (arith, ap (lookup j) r, lookup-delete id j s.running)),
        ),
        w,
      )

Ends-IsDraining :
    {s u : Server} {n : ℕ} → Ends s n u → IsDraining s → IsDraining u × (u.waiting + n ≡ s.waiting)
Ends-IsDraining none_ended i = (i, omega arith)
Ends-IsDraining {s} {u} (ended {n} {t} id run es h e) i =
    let (j, w) = Ends-IsDraining es i in
    let (k, v) = end_run-IsDraining id run t u j h e in (k, omega (arith, v, w))

-- Wait returns once the closed listeners have ended: of a server whose wait group counts its
-- listeners, with no listener still to begin and every running one closed, each end takes one off the
-- wait group; and unless that is at zero by then, there is a closed listener that can end next.
pub Ends-progress :
    (s u : Server) (n : ℕ)
    → IsDraining s
    → Ends s n u
    → (u.waiting + n ≡ s.waiting)
      × ((u.waiting ≡ 0)
          ⊎ ((id : ℕ) × (run : Run) × (t : Server) × (lookup id u.running ≡ some run)
              × (elem id u.closed ≡ true)
              × (end_run id run u ≡ some t)))
Ends-progress s u n i es = let ((k, p, c), w) = Ends-IsDraining es i in (w, go u.running refl k p c)
  where
    go :
        (m : Dict ℕ Run)
        → u.running ≡ m
        → IsCounted u
        → u.pending ≡ []
        → IsClosed u
        → (u.waiting ≡ 0)
          ⊎ ((id : ℕ) × (run : Run) × (t : Server) × (lookup id u.running ≡ some run)
              × (elem id u.closed ≡ true)
              × (end_run id run u ≡ some t))
    go [] e k p c = inl (ground (arith, k.counted))
    go ((id, run) ∷ m) e k p c =
        let first : lookup id u.running ≡ some run = ground (arith, e, eqb_iff id id) in
        let (t, f, w, a, b, d, x, y) = end_run-IsCounted id run u k first in
        inr (id, run, t, first, c id run first, f)
