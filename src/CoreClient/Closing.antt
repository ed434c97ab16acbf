-- ===== src/CoreClient/Closing.antt =====
-- What the pool's own closes do: the session, the address and the age of a channel stay, and idle
-- channels only go.
use mathlib.Core.Path.{ap₂}
use gocs.Prelude.{
  false, ℕ, ◌-◌, ◌≡◌, refl, ap, ◌∙◌, Bool, not, ◌&&◌, ◌||◌, none, List, [], ◌∷◌, ltb, eqb, eqb_iff,
  arith, Option-cases, inl, inr,
}
use gocs.Prelude.Keys.{elem, elem-add, elem-remove}
use gocs.Channel.{Conn, close}
use gocs.Channel.Protocol.{close-keeps}
use gocs.CoreClient.{
  Client, store, make_room, oldest, expire, expire_all, timeout_conn, close_all, close_client,
  push_conn,
}

-- The same object, in the same session, of the same age.
abbrev pub SameRole : Conn → Conn → Type 0
SameRole x y = (x.key ≡ y.key) × (x.using ≡ y.using) × (x.last_used ≡ y.last_used)

pub record Closes (c d : Client) : Type 0 where
  pub same_next : d.next_key ≡ c.next_key
  pub roles : (j : ℕ) → SameRole (d.heap j) (c.heap j)

-- A channel is due for the sweep at this time.
abbrev pub is_due : ℕ → Client → ℕ → Bool
is_due now c k = ltb c.keep_idle (now - (c.heap k).last_used)

make_room-Closes : (now : ℕ) (c : Client) → Closes c (make_room now c)
unfolding make_room
make_room-Closes now c = record {
  same_next = ground arith;
  roles = λ j. elim (Option-cases (oldest c.heap now none c.idles)) [
    | inl e ↦ ground arith
    | inr (k, e) ↦ ground (arith, close-keeps (c.heap k), eqb_iff k j)
  ];
}

pub make_room-keeps :
    (now : ℕ) (c : Client)
    → ((make_room now c).idles ≡ c.idles) × ((make_room now c).conns ≡ c.conns)
unfolding make_room
make_room-keeps now c = ground arith

pub push_conn-Closes : (now k : ℕ) (c : Client) → Closes c (push_conn now k c)
unfolding push_conn
push_conn-Closes now k c =
    let m = make_room-Closes now c in record { same_next = m.same_next; roles = m.roles }

-- After pushConn the channel is idle, and so is every channel that was.
pub elem-push_conn :
    (now k j : ℕ) (c : Client) → elem j (push_conn now k c).idles ≡ (eqb k j || elem j c.idles)
unfolding push_conn
elem-push_conn now k j c =
    elem-add j k (make_room now c).idles ∙ ap (λ l. eqb k j || elem j l) (make_room-keeps now c).0

record Expires (now : ℕ) (ks : List ℕ) (c d : Client) : Type 0 where
  closes : Closes c d
  same_keep : d.keep_idle ≡ c.keep_idle
  gone : (j : ℕ) → elem j d.idles ≡ (elem j c.idles && not (elem j ks && is_due now c j))

expire-role : (now k j : ℕ) (c : Client) → SameRole ((expire now k c).heap j) (c.heap j)
expire-role now k j c = ground (arith, close-keeps (c.heap k), eqb_iff k j)

expire-fields :
    (now k : ℕ) (c : Client)
    → ((expire now k c).next_key ≡ c.next_key) × ((expire now k c).keep_idle ≡ c.keep_idle)
expire-fields now k c = ground arith

elem-expire :
    (now k j : ℕ) (c : Client)
    → elem j (expire now k c).idles ≡ (elem j c.idles && not (eqb k j && is_due now c j))
elem-expire now k j c = ground (arith, elem-remove j k c.idles, eqb_iff k j)

due-expire : (now k j : ℕ) (c : Client) → is_due now (expire now k c) j ≡ is_due now c j
due-expire now k j c =
    ap₂ (λ a b. ltb a (now - b)) (expire-fields now k c).1 (expire-role now k j c).2

expire_all-Expires : (now : ℕ) (ks : List ℕ) (c : Client) → Expires now ks c (expire_all now ks c)
unfolding expire_all elem
expire_all-Expires now [] c = record {
  closes = record { same_next = refl; roles = λ j. (refl, refl, refl) };
  same_keep = refl;
  gone = λ j. ground arith;
}
expire_all-Expires now (k ∷ ks) c =
    let r = expire_all-Expires now ks (expire now k c) in
    record {
      closes = record {
        same_next = r.closes.same_next ∙ (expire-fields now k c).0;
        roles = λ j.
            let a = r.closes.roles j in
            let b = expire-role now k j c in (a.0 ∙ b.0, a.1 ∙ b.1, a.2 ∙ b.2);
      };
      same_keep = r.same_keep ∙ (expire-fields now k c).1;
      gone = λ j.
          r.gone j
          ∙ ap₂ (λ a b. a && not (elem j ks && b)) (elem-expire now k j c) (due-expire now k j c)
          ∙ regroup (elem j c.idles) (eqb k j) (elem j ks) (is_due now c j);
    }
  where
    regroup : (a b e d : Bool) → (a && not (b && d) && not (e && d)) ≡ (a && not ((b || e) && d))
    regroup a b e d = ground arith

pub timeout_conn-Closes : (now : ℕ) (c : Client) → Closes c (timeout_conn now c)
unfolding timeout_conn
timeout_conn-Closes now c = (expire_all-Expires now c.idles c).closes

-- A sweep takes out of the pool exactly the idle channels whose age is more than KeepIdle.
pub elem-timeout_conn :
    (now j : ℕ) (c : Client)
    → elem j (timeout_conn now c).idles ≡ (elem j c.idles && not (is_due now c j))
unfolding timeout_conn
elem-timeout_conn now j c =
    (expire_all-Expires now c.idles c).gone j ∙ once (elem j c.idles) (is_due now c j)
  where
    once : (a d : Bool) → (a && not (a && d)) ≡ (a && not d)
    once a d = ground arith

close_all-Closes : (ks : List ℕ) (c : Client) → Closes c (close_all ks c)
unfolding close_all
close_all-Closes [] c = record { same_next = refl; roles = λ j. (refl, refl, refl) }
close_all-Closes (k ∷ ks) c =
    let c' = store k (close (c.heap k)) c in
    let r = close_all-Closes ks c' in
    record {
      same_next = r.same_next;
      roles = λ j. let a = r.roles j in let b = one j in (a.0 ∙ b.0, a.1 ∙ b.1, a.2 ∙ b.2);
    }
  where
    one : (j : ℕ) → SameRole ((store k (close (c.heap k)) c).heap j) (c.heap j)
    one j = ground (arith, close-keeps (c.heap k), eqb_iff k j)

idles-close_all : (ks : List ℕ) (c : Client) → (close_all ks c).idles ≡ c.idles
unfolding close_all
idles-close_all [] c = refl
idles-close_all (k ∷ ks) c = idles-close_all ks (store k (close (c.heap k)) c)

pub close_client-Closes :
    (c : Client) → Closes c (close_client c) × ((close_client c).idles ≡ c.idles)
unfolding close_client
close_client-Closes c =
    let d = record c { running = false } in
    let k = close_all-Closes c.conns d in
    (record { same_next = k.same_next; roles = k.roles }, idles-close_all c.conns d)
