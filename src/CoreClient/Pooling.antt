-- ===== src/CoreClient/Pooling.antt =====
-- What the idle pool does with its bound and with the age of its channels.
use mathlib.Core.Path.{ap₂}
use gocs.Prelude.{
  ℕ, ◌-◌, ◌<◌, ◌≤◌, ◌≡◌, ◌⊎◌, inl, inr, refl, ap, ◌∙◌, true, false, Option, none, some, List, [],
  ◌∷◌, ltb, length, eqb_iff, arith, Bool-cases, All,
}
use gocs.Prelude.Keys.{elem, add}
use gocs.Channel.{Conn, close}
use gocs.CoreClient.Closing.{
  is_due, push_conn-Closes, elem-push_conn, elem-timeout_conn, make_room-keeps,
}
use gocs.CoreClient.{
  Client, store, close_oldest, make_room, oldest, timeout_conn, push_conn, close_piper,
}

-- The channel that pushConn picks from a full pool: idle, used before now, and no idle one older.
pub record IsFirst (heap : ℕ → Conn) (time : ℕ) (ks : List ℕ) (o : ℕ) : Type 0 where
  pub listed : elem o ks ≡ true
  pub before : (heap o).last_used < time
  pub oldest_of : All (λ j. (heap o).last_used ≤ (heap j).last_used) ks

-- The scan from a candidate of this time on either keeps it or finds the first one before it.
oldest-IsFirst :
    (heap : ℕ → Conn) (time : ℕ) (best : Option ℕ) (ks : List ℕ)
    → ((oldest heap time best ks ≡ best) × All (λ j. time ≤ (heap j).last_used) ks)
      ⊎ ((o : ℕ) × (oldest heap time best ks ≡ some o) × IsFirst heap time ks o)
unfolding oldest elem
oldest-IsFirst heap time best [] = inl (refl, tt)
oldest-IsFirst heap time best (k ∷ ks) = elim (Bool-cases (ltb (heap k).last_used time)) [
  | inl older ↦ rw older (elim (oldest-IsFirst heap (heap k).last_used (some k) ks) [
    | inl (e, a) ↦ inr (
      k,
      e,
      record {
        listed = ground (arith, eqb_iff k k);
        before = ground arith;
        oldest_of = (omega arith, a);
      },
    )
    | inr (o, e, f) ↦ inr (
      o,
      e,
      record {
        listed = ground (arith, f.listed);
        before = ground (arith, f.before);
        oldest_of = (omega (arith, f.before), f.oldest_of);
      },
    )
  ])
  | inr younger ↦ rw younger (elim (oldest-IsFirst heap time best ks) [
    | inl (e, a) ↦ inl (e, (ground arith, a))
    | inr (o, e, f) ↦ inr (
      o,
      e,
      record {
        listed = ground (arith, f.listed);
        before = f.before;
        oldest_of = (ground (arith, f.before), f.oldest_of);
      },
    )
  ])
]

full_pool :
    (now : ℕ) (c : Client)
    → c.max_idle ≤ length c.idles
    → make_room now c ≡ close_oldest c (oldest c.heap now none c.idles)
unfolding make_room
full_pool now c full = ground arith

add_new : (k : ℕ) (ks : List ℕ) → elem k ks ≡ false → add k ks ≡ k ∷ ks
unfolding add
add_new k ks h = rw h

-- Returning a channel to a pool that has MaxIdle channels or more and not this one makes the pool
-- grow by one all the same: unless every idle channel dates from now or later, an oldest one is
-- closed, and stays in the pool.
pub push_conn-overflows :
    (now k : ℕ) (c : Client)
    → elem k c.idles ≡ false
    → c.max_idle ≤ length c.idles
    → ((push_conn now k c).idles ≡ k ∷ c.idles)
      × (All (λ j. now ≤ (c.heap j).last_used) c.idles
          ⊎ ((o : ℕ) × IsFirst c.heap now c.idles o
              × ((push_conn now k c).heap o ≡ close (c.heap o))
              × (elem o (push_conn now k c).idles ≡ true)))
unfolding push_conn
push_conn-overflows now k c free full = (
  rw (make_room-keeps now c).0 (add_new k c.idles free),
  elim (oldest-IsFirst c.heap now none c.idles) [
    | inl (e, a) ↦ inl a
    | inr (o, e, f) ↦ inr (
      o,
      f,
      rw (full_pool now c full, e) (ground (arith, eqb_iff o o)),
      ground (arith, elem-push_conn now k o c, f.listed),
    )
  ],
)

push_conn-keep_idle : (now k : ℕ) (c : Client) → (push_conn now k c).keep_idle ≡ c.keep_idle
unfolding push_conn make_room
push_conn-keep_idle now k c = ground arith

due-push_conn : (now k : ℕ) (c : Client) → is_due now (push_conn now k c) k ≡ is_due now c k
due-push_conn now k c =
    ap₂ (λ a b. ltb a (now - b)) (push_conn-keep_idle now k c)
      ((push_conn-Closes now k c).roles k).2

expired_push :
    (now k : ℕ) (c : Client)
    → is_due now c k ≡ true
    → elem k (timeout_conn now (push_conn now k c)).idles ≡ false
expired_push now k c due =
    ground (arith, elem-timeout_conn now k (push_conn now k c), due-push_conn now k c)

-- A channel that is given back without an error, at a time more than KeepIdle after its LastUsed,
-- is out of the pool after a sweep at that time.
pub close_piper-due :
    (now k : ℕ) (c : Client)
    → (c.heap k).error ≡ none
    → is_due now c k ≡ true
    → elem k (timeout_conn now (close_piper now k c)).idles ≡ false
unfolding close_piper
close_piper-due now k c healthy due =
    rw (healthy, close_piper)
      (expired_push now k (store k (record (c.heap k) { using = [] }) c)
        (ap (λ b. ltb c.keep_idle (now - b)) (ground (arith, eqb_iff k k)) ∙ due))
