-- ===== src/ClientServers/Rotation.antt =====
-- Dial of a ClientServerDialer takes its addresses in turn.
use Prim.Native.Nat.{◌%◌}
use native.Mathlib.Nat.{mod-lt, mod-eq_of_lt, mod-add-mod}
use gocs.Prelude.{
  ℕ, zero, suc, ◌+◌, ◌<◌, ◌≡◌, refl, sym, ap, ◌∙◌, Option, none, some, List, [], ◌∷◌, Bytes, length,
  get_elem?, arith,
}
use gocs.Errors.{Result}
use gocs.ClientServers.{ServerDialer, with_credentials, named, server_dial}

get_elem?-lt : (xs : List Bytes) (i : ℕ) → i < length xs → (a : Bytes) × (get_elem? xs i ≡ some a)
get_elem?-lt [] i h = absurd (omega arith)
get_elem?-lt (x ∷ xs) zero h = (x, refl)
get_elem?-lt (x ∷ xs) (suc i) h = get_elem?-lt xs i (omega arith)

-- The same dialer, when n more addresses are behind it.
abbrev pub after_dials : ServerDialer → ℕ → ServerDialer
after_dials d n = record d { last_used = (d.last_used + n) % length d.conf.address }

module _ {R : Type 0} (base : Bytes → Result R) where
  abbrev then_dial :
      (ServerDialer → Option ServerDialer)
      → Option (Result (Bytes × R) × ServerDialer)
      → Option ServerDialer
  then_dial f none = none
  then_dial f (some (r, d)) = f d

  -- n dials, one after the other.
  pub dials : ℕ → ServerDialer → Option ServerDialer
  dials zero d = some d
  dials (suc n) d = then_dial (dials n) (server_dial base d)

  server_dial_lem :
      (d : ServerDialer)
      → d.last_used < length d.conf.address
      → (a : Bytes) × (get_elem? d.conf.address d.last_used ≡ some a)
        × (server_dial base d
            ≡ some (named base d.conf.name (base (with_credentials d.conf a)), after_dials d 1))
  unfolding server_dial
  server_dial_lem d h =
      let (a, e) = get_elem?-lt d.conf.address d.last_used h in (a, e, rw (e, server_dial))

  dials-after_dials :
      (n : ℕ) (d : ServerDialer)
      → d.last_used < length d.conf.address
      → dials n d ≡ some (after_dials d n)
  unfolding dials
  dials-after_dials zero d h =
      ap (λ i. some (record d { last_used = i }))
        (sym (mod-eq_of_lt h) ∙ ap (λ j. j % length d.conf.address) (omega arith))
  dials-after_dials (suc n) d h =
      let (a, e, p) = server_dial_lem d h in
      rw (p, dials)
        (dials-after_dials n (after_dials d 1) (mod-lt (d.last_used + 1) (omega (arith, h)))
          ∙ ap (λ i. some (record d { last_used = i }))
              (mod-add-mod (d.last_used + 1) (length d.conf.address) n
                ∙ ap (λ j. j % length d.conf.address) (omega arith)))

  -- From an index in range, every one of any number of dials finds an address: behind n dials, the
  -- next asks for the address n places further, counted round the list, and never panics.
  pub dials-rotate :
      (n : ℕ) (d : ServerDialer)
      → d.last_used < length d.conf.address
      → (a : Bytes) × (dials n d ≡ some (after_dials d n))
        × (get_elem? d.conf.address ((d.last_used + n) % length d.conf.address) ≡ some a)
        × (server_dial base (after_dials d n)
            ≡ some (
              named base d.conf.name (base (with_credentials d.conf a)),
              after_dials (after_dials d n) 1,
            ))
  dials-rotate n d h =
      let (a, e, p) =
        server_dial_lem (after_dials d n) (mod-lt (d.last_used + n) (omega (arith, h))) in
      (a, dials-after_dials n d h, e, p)
