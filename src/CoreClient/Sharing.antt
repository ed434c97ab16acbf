-- ===== src/CoreClient/Sharing.antt =====
-- Who has a channel. Goroutines pull channels, use them, give them back or drop them, in any
-- interleaving of the steps under the lock, with the sweeps of procLoop between them.
use mathlib.Core.Path.{subst}
use gocs.Prelude.{
  ℕ, zero, suc, ◌<◌, ◌≡◌, ◌≢◌, ◌⊎◌, inl, inr, refl, ap, ◌∙◌, true, false, List, [], ◌∷◌, eqb,
  eqb_iff, arith, Bool-cases,
}
use gocs.Prelude.Keys.{elem, remove, elem-remove}
use gocs.Errors.{Error, Result, ok, err}
use gocs.Channel.{Conn, Raw, new_channel_conn, close}
use gocs.CoreClient.Closing.{
  Closes, push_conn-Closes, elem-push_conn, timeout_conn-Closes, elem-timeout_conn,
  close_client-Closes,
}
use gocs.CoreClient.{
  Client, store, next_dial, first_key, pull_conn, push_conn, timeout_conn, close_client,
}

-- A client and the channels that goroutines hold.
pub record Shared : Type 0 where
  pub client : Client
  pub held : List ℕ

pub data Step (u v : Shared) : Type 0 where
  pulls :
      (now pick k : ℕ) (c : Client)
      → pull_conn now pick u.client ≡ (ok k, c)
      → v ≡ record { client = c; held = k ∷ u.held }
      → Step u v
  pull_fails :
      (now pick : ℕ) (e : Error) (c : Client)
      → pull_conn now pick u.client ≡ (err e, c)
      → v ≡ record u { client = c }
      → Step u v
  uses :
      (k : ℕ) (conn : Conn)
      → elem k u.held ≡ true
      → v ≡ record u { client = store k conn u.client }
      → Step u v
  gives_back :
      (now k : ℕ)
      → elem k u.held ≡ true
      → (u.client.heap k).using ≡ []
      → v ≡ record { client = push_conn now k u.client; held = remove k u.held }
      → Step u v
  closes :
      (k : ℕ) (conn : Conn)
      → elem k u.held ≡ true
      → v ≡ record { client = store k (close conn) u.client; held = remove k u.held }
      → Step u v
  drops : (k : ℕ) → v ≡ record u { held = remove k u.held } → Step u v
  sweeps : (now : ℕ) → v ≡ record u { client = timeout_conn now u.client } → Step u v
  shuts : v ≡ record u { client = close_client u.client } → Step u v

pub data Reach (u : Shared) : Shared → Type 0 where
  here : Reach u u
  after : {v w : Shared} → Reach u v → Step v w → Reach u w

-- Each item once.
abbrev pub Once : List ℕ → Type 0
Once [] = Unit
Once (k ∷ ks) = (elem k ks ≡ false) × Once ks

-- Nobody shares a channel: each is held once, none is held and idle, and an idle one is outside
-- any session. New addresses are fresh.
pub record IsExclusive (u : Shared) : Type 0 where
  pub once : Once u.held
  pub apart : (k : ℕ) → elem k u.held ≡ true → elem k u.client.idles ≡ false
  pub clean : (k : ℕ) → elem k u.client.idles ≡ true → (u.client.heap k).using ≡ []
  pub idle_below : (k : ℕ) → elem k u.client.idles ≡ true → k < u.client.next_key
  pub held_below : (k : ℕ) → elem k u.held ≡ true → k < u.client.next_key

Once-remove : (k : ℕ) (ks : List ℕ) → Once ks → Once (remove k ks)
unfolding remove
Once-remove k [] o = tt
Once-remove k (j ∷ js) o = ground (arith, Once-remove k js o.1, elem-remove j k js)

-- pullConn hands out an idle channel, which is idle no longer, or one at a fresh address.
pub first_key-elem : (pick k : ℕ) (ks : List ℕ) → elem (first_key pick k ks) (k ∷ ks) ≡ true
unfolding first_key elem
first_key-elem pick k [] = ground (arith, eqb_iff k k)
first_key-elem zero k (j ∷ js) = ground (arith, eqb_iff k k)
first_key-elem (suc pick) k (j ∷ js) = ground (arith, first_key-elem pick j js)

pub record Pulled (c d : Client) (k : ℕ) : Type 0 where
  pub source :
      ((elem k c.idles ≡ true) × (d.idles ≡ remove k c.idles) × (d.next_key ≡ c.next_key))
      ⊎ ((k ≡ c.next_key) × (c.idles ≡ []) × (d.idles ≡ []) × (d.next_key ≡ suc c.next_key))
  pub others : (j : ℕ) → j ≢ c.next_key → d.heap j ≡ c.heap j

pull_conn-Pulled : (now pick k : ℕ) (c d : Client) → pull_conn now pick c ≡ (ok k, d) → Pulled c d k
unfolding pull_conn
pull_conn-Pulled now pick k c d e = go c.idles refl
  where
    at : (j : ℕ) → (pull_conn now pick c).1.heap j ≡ d.heap j
    at j = ap (λ (x : Result ℕ × Client). x.1.heap j) e

    go : (is : List ℕ) → c.idles ≡ is → Pulled c d k
    go [] p = go_dial (next_dial c.dials) refl
      where
        go_dial : (r : Result Raw) → next_dial c.dials ≡ r → Pulled c d k
        go_dial (err x) q = absurd (ground arith)
        go_dial (ok raw) q = record {
          source = ground arith;
          others = λ j n. ground (arith, at j, eqb_iff c.next_key j);
        }
    go (i ∷ is) p = record {
      source = ground (arith, first_key-elem pick i is);
      others = λ j n. ground (arith, at j);
    }

pull_conn-failed :
    (now pick : ℕ) (x : Error) (c d : Client)
    → pull_conn now pick c ≡ (err x, d)
    → (d.idles ≡ c.idles) × (d.next_key ≡ c.next_key) × ((j : ℕ) → d.heap j ≡ c.heap j)
unfolding pull_conn
pull_conn-failed now pick x c d e = go c.idles refl
  where
    at : (j : ℕ) → (pull_conn now pick c).1.heap j ≡ d.heap j
    at j = ap (λ (y : Result ℕ × Client). y.1.heap j) e

    go :
        (is : List ℕ)
        → c.idles ≡ is
        → (d.idles ≡ c.idles) × (d.next_key ≡ c.next_key) × ((j : ℕ) → d.heap j ≡ c.heap j)
    go [] p = (ground arith, ground arith, λ j. ground (arith, at j))
    go (i ∷ is) p = absurd (ground arith)

pulls-IsExclusive :
    (c d : Client) (held : List ℕ) (k : ℕ)
    → Pulled c d k
    → IsExclusive (record { client = c; held = held })
    → IsExclusive (record { client = d; held = k ∷ held })
unfolding elem
pulls-IsExclusive c d held k p x = record {
  once = (ground (arith, p.source, x.apart k, x.held_below k), x.once);
  apart = λ j h. ground (arith, p.source, x.apart j, elem-remove j k c.idles, eqb_iff k j);
  clean = λ j h.
      ground (arith, p.source, p.others j, x.clean j, x.idle_below j, elem-remove j k c.idles);
  idle_below = λ j h. ground (arith, p.source, x.idle_below j, elem-remove j k c.idles);
  held_below = λ j h. ground (arith, p.source, x.held_below j, x.idle_below k, eqb_iff k j);
}

-- Closes and sweeps, and any use of a held channel, keep exclusiveness.
Closes-IsExclusive :
    (c d : Client) (held : List ℕ)
    → Closes c d
    → ((j : ℕ) → elem j d.idles ≡ true → elem j c.idles ≡ true)
    → IsExclusive (record { client = c; held = held })
    → IsExclusive (record { client = d; held = held })
Closes-IsExclusive c d held k sub x = record {
  once = x.once;
  apart = λ j h. ground (arith, x.apart j, sub j);
  clean = λ j h. (k.roles j).1 ∙ x.clean j (sub j h);
  idle_below = λ j h. rw k.same_next (x.idle_below j (sub j h));
  held_below = λ j h. rw k.same_next (x.held_below j h);
}

gives-IsExclusive :
    (now k : ℕ) (c : Client) (held : List ℕ)
    → elem k held ≡ true
    → (c.heap k).using ≡ []
    → IsExclusive (record { client = c; held = held })
    → IsExclusive (record { client = push_conn now k c; held = remove k held })
gives-IsExclusive now k c held mine out x =
    let p = push_conn-Closes now k c in
    record {
      once = Once-remove k held x.once;
      apart = λ j h. ground (arith, x.apart j, elem-push_conn now k j c, elem-remove j k held);
      clean = λ j h. (p.roles j).1 ∙ elim (Bool-cases (eqb k j)) [
        | inl same ↦ subst (λ i. (c.heap i).using ≡ []) ((eqb_iff k j).0 same) out
        | inr other ↦ x.clean j (ground (arith, elem-push_conn now k j c))
      ];
      idle_below = λ j h. rw p.same_next (
          ground
            (arith, x.idle_below j, x.held_below k mine, elem-push_conn now k j c, eqb_iff k j));
      held_below = λ j h. rw p.same_next (x.held_below j (ground (arith, elem-remove j k held)));
    }

failed-IsExclusive :
    (c d : Client) (held : List ℕ)
    → (d.idles ≡ c.idles) × (d.next_key ≡ c.next_key) × ((j : ℕ) → d.heap j ≡ c.heap j)
    → IsExclusive (record { client = c; held = held })
    → IsExclusive (record { client = d; held = held })
failed-IsExclusive c d held (i, n, e) x = record {
  once = x.once;
  apart = λ j h. rw i (x.apart j h);
  clean = λ j h. ap (λ (y : Conn). y.using) (e j) ∙ x.clean j (rw i at h);
  idle_below = λ j h. rw n (x.idle_below j (rw i at h));
  held_below = λ j h. rw n (x.held_below j h);
}

Step-IsExclusive : {u v : Shared} → IsExclusive u → Step u v → IsExclusive v
Step-IsExclusive {u} x (pulls now pick k c p e) =
    rw e (pulls-IsExclusive u.client c u.held k (pull_conn-Pulled now pick k u.client c p) x)
Step-IsExclusive {u} x (pull_fails now pick a c p e) =
    rw e (failed-IsExclusive u.client c u.held (pull_conn-failed now pick a u.client c p) x)
Step-IsExclusive {u} x (uses k conn mine e) = rw e (record {
  once = x.once;
  apart = x.apart;
  clean = λ j h. ground (arith, x.apart j, x.clean j, eqb_iff k j);
  idle_below = x.idle_below;
  held_below = x.held_below;
})
Step-IsExclusive {u} x (gives_back now k mine out e) =
    rw e (gives-IsExclusive now k u.client u.held mine out x)
Step-IsExclusive {u} x (closes k conn mine e) = rw e (record {
  once = Once-remove k u.held x.once;
  apart = λ j h. x.apart j (ground (arith, elem-remove j k u.held));
  clean = λ j h. ground (arith, x.apart j, x.clean j, eqb_iff k j);
  idle_below = x.idle_below;
  held_below = λ j h. x.held_below j (ground (arith, elem-remove j k u.held));
})
Step-IsExclusive {u} x (drops k e) = rw e (record {
  once = Once-remove k u.held x.once;
  apart = λ j h. x.apart j (ground (arith, elem-remove j k u.held));
  clean = x.clean;
  idle_below = x.idle_below;
  held_below = λ j h. x.held_below j (ground (arith, elem-remove j k u.held));
})
Step-IsExclusive {u} x (sweeps now e) = rw e (
    Closes-IsExclusive u.client (timeout_conn now u.client) u.held
      (timeout_conn-Closes now u.client) (λ j h. ground (arith, elem-timeout_conn now j u.client))
      x)
Step-IsExclusive {u} x (shuts e) =
    let c = close_client-Closes u.client in
    rw e (Closes-IsExclusive u.client (close_client u.client) u.held c.0 (λ j h. rw c.1 at h) x)

-- From a state where nobody shares a channel, no interleaving of pulls, uses, returns, closes,
-- drops, sweeps and a shutdown leads to one where a channel is held twice, or held and idle, or idle with
-- a session on it.
pub Reach-IsExclusive : {u v : Shared} → IsExclusive u → Reach u v → IsExclusive v
Reach-IsExclusive x here = x
Reach-IsExclusive x (after r st) = Step-IsExclusive (Reach-IsExclusive x r) st

-- No channel is dropped: one that is held no longer was closed, or given back to the pool.
abbrev pub IsKept : {u v : Shared} → Step u v → Type 0
IsKept (pulls now pick k c p e) = Unit
IsKept (pull_fails now pick a c p e) = Unit
IsKept (uses k conn mine e) = Unit
IsKept (gives_back now k mine out e) = Unit
IsKept (closes k conn mine e) = Unit
IsKept (drops k e) = ⊥
IsKept (sweeps now e) = Unit
IsKept (shuts e) = Unit

-- Sequences of steps that drop no channel.
pub data Keeps (u : Shared) : Shared → Type 0 where
  begun : Keeps u u
  kept : {v w : Shared} → Keeps u v → (x : Step v w) → IsKept x → Keeps u w

pub Keeps-IsExclusive : {u v : Shared} → IsExclusive u → Keeps u v → IsExclusive v
Keeps-IsExclusive x begun = x
Keeps-IsExclusive x (kept r st k) = Step-IsExclusive (Keeps-IsExclusive x r) st

-- A channel that is pulled is outside any session.
pub pull_conn-unused :
    (now pick k : ℕ) (c d : Client)
    → pull_conn now pick c ≡ (ok k, d)
    → ((j : ℕ) → elem j c.idles ≡ true → (c.heap j).using ≡ [])
    → (d.heap k).using ≡ []
unfolding pull_conn new_channel_conn
pull_conn-unused now pick k c d e clean = go c.idles refl
  where
    at : (pull_conn now pick c).1.heap k ≡ d.heap k
    at = ap (λ (x : Result ℕ × Client). x.1.heap k) e

    go_dial : (r : Result Raw) → next_dial c.dials ≡ r → c.idles ≡ [] → (d.heap k).using ≡ []
    go_dial (err x) q p = absurd (ground arith)
    go_dial (ok raw) q p = ground (arith, at, eqb_iff k k)

    go : (is : List ℕ) → c.idles ≡ is → (d.heap k).using ≡ []
    go [] p = go_dial (next_dial c.dials) refl p
    go (i ∷ is) p = ground (arith, at, clean k, first_key-elem pick i is)
