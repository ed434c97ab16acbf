-- ===== src/Udpgw/Bounds.antt =====
-- The table of a gateway keeps within MaxConn, and what makes room is the oldest connection.
use gocs.Prelude.{
  ℕ, ◌<◌, ◌≤◌, ◌≡◌, refl, ap, eqb_iff, ◌⊎◌, inl, inr, none, some, [], ◌∷◌, Bytes, ltb, eqb, arith,
  length, All, Bool-cases, Option-cases, nat_eq,
}
use gocs.Prelude.Dict.{
  Dict, lookup, insert, Distinct, Distinct-insert, Distinct-delete, All-insert, All-delete,
  length-insert-le, length-insert_old, length-delete-lt, length-delete-le,
}
use gocs.Errors.{Result, ok, err}
use gocs.Udpgw.Header.{Addr, Parsed, packet, parse}
use gocs.Udpgw.{
  UdpConn, Udpgw, Env, oldest, evict, limit_conn, open_conn, deliver, proc_data, send, new_conn,
}

-- An entry stands under its own connection id.
abbrev pub IsKeyed : ℕ × UdpConn → Type 0
IsKeyed e = e.1.conid ≡ e.0

-- Each connection stands under its own id, no id twice, and there are at most MaxConn.
pub record IsBounded (u : Udpgw) : Type 0 where
  pub keyed : All IsKeyed u.conn_list
  pub distinct : Distinct u.conn_list
  pub bounded : length u.conn_list ≤ u.max_conn

lookup-IsKeyed :
    (k : ℕ) (c : UdpConn) (m : Dict ℕ UdpConn) → All IsKeyed m → lookup k m ≡ some c → c.conid ≡ k
lookup-IsKeyed k c [] h e = cc
lookup-IsKeyed k c ((i, w) ∷ m) h e = ground (arith, lookup-IsKeyed k c m h.1)

found_ahead :
    (o w : UdpConn) (i : ℕ) (m : Dict ℕ UdpConn)
    → w.conid ≡ i
    → lookup i m ≡ none
    → (o ≡ w) ⊎ (lookup o.conid m ≡ some o)
    → lookup o.conid ((i, w) ∷ m) ≡ some o
found_ahead o w i m k fresh (inl e) = rw (e, k) (ground arith)
found_ahead o w i m k fresh (inr e) = elim (Bool-cases (eqb i o.conid)) [
  | inl same ↦ absurd (cc (ap (λ j. lookup j m) ((eqb_iff i o.conid).0 same)))
  | inr other ↦ rw other e
]

-- The connection that the loop of limitConn picks, from a candidate on.
oldest-some :
    (c : UdpConn) (m : Dict ℕ UdpConn)
    → All IsKeyed m
    → Distinct m
    → (o : UdpConn) × (oldest (some c) m ≡ some o)
      × (o.latest ≤ c.latest)
      × All (λ (e : ℕ × UdpConn). o.latest ≤ e.1.latest) m
      × ((o ≡ c) ⊎ (lookup o.conid m ≡ some o))
unfolding oldest
oldest-some c [] k d = (c, refl, omega arith, tt, inl refl)
oldest-some c ((i, w) ∷ m) k d = elim (Bool-cases (ltb w.latest c.latest)) [
  | inl before ↦
      let (o, e, l, a, s) = oldest-some w m k.1 d.1 in
      (o, rw before e, ground arith, (l, a), inr (found_ahead o w i m k.0 d.0 s))
  | inr after ↦
      let (o, e, l, a, s) = oldest-some c m k.1 d.1 in
      (
        o,
        rw after e,
        l,
        (ground arith, a),
        elim s [ inl p ↦ inl p | inr q ↦ inr (found_ahead o w i m k.0 d.0 (inr q)) ],
      )
]

-- The victim of limitConn: in the table, and no connection of the table is older.
pub record IsOldest (u : Udpgw) (o : UdpConn) : Type 0 where
  pub listed : lookup o.conid u.conn_list ≡ some o
  pub first : All (λ (e : ℕ × UdpConn). o.latest ≤ e.1.latest) u.conn_list

oldest-IsOldest :
    (u : Udpgw) (i : ℕ) (c : UdpConn) (m : Dict ℕ UdpConn)
    → u.conn_list ≡ (i, c) ∷ m
    → All IsKeyed ((i, c) ∷ m)
    → Distinct ((i, c) ∷ m)
    → (o : UdpConn) × (oldest none u.conn_list ≡ some o) × IsOldest u o
unfolding oldest
oldest-IsOldest u i c m e k d =
    let (o, p, l, a, s) = oldest-some c m k.1 d.1 in
    (o, rw e p, record { listed = rw e (found_ahead o c i m k.0 d.0 s); first = rw e (l, a) })

full_table :
    (u : Udpgw) (m : Dict ℕ UdpConn)
    → u.conn_list ≡ m
    → 0 < u.max_conn
    → u.max_conn ≤ length u.conn_list
    → All IsKeyed m
    → Distinct m
    → (o : UdpConn) × (oldest none u.conn_list ≡ some o) × IsOldest u o
full_table u [] e p f k d = absurd (omega (arith, ap (length {A = ℕ × UdpConn}) e))
full_table u ((i, c) ∷ m) e p f k d = oldest-IsOldest u i c m e k d

-- A bounded table that is full, where MaxConn is positive, gives up its oldest connection: its
-- socket is closed and its entry goes.
pub limit_conn-evicts :
    (u : Udpgw)
    → IsBounded u
    → 0 < u.max_conn
    → u.max_conn ≤ length u.conn_list
    → (o : UdpConn) × (limit_conn u ≡ evict u (some o)) × IsOldest u o
unfolding limit_conn
limit_conn-evicts u b p full =
    let (o, e, q) = full_table u u.conn_list refl p full b.keyed b.distinct in
    (o, rw e (ground arith), q)

evict-IsBounded : (u : Udpgw) (o : UdpConn) → IsBounded u → IsBounded (evict u (some o))
evict-IsBounded u o b = record {
  keyed = All-delete IsKeyed o.conid u.conn_list b.keyed;
  distinct = Distinct-delete o.conid u.conn_list b.distinct;
  bounded = omega (arith, length-delete-le o.conid u.conn_list, b.bounded);
}

-- After limitConn there is room for one more.
record HasRoom (u v : Udpgw) : Type 0 where
  valid : IsBounded v
  room : length v.conn_list < v.max_conn
  same : v.max_conn ≡ u.max_conn

limit_conn-HasRoom : (u : Udpgw) → IsBounded u → 0 < u.max_conn → HasRoom u (limit_conn u)
limit_conn-HasRoom u b p = elim (Bool-cases (ltb (length u.conn_list) u.max_conn)) [
  | inl room ↦ unfold limit_conn in rw room (record { valid = b; room = ground arith; same = refl })
  | inr full ↦
      let (o, e, q) = limit_conn-evicts u b p (ground arith) in
      rw e (record {
        valid = evict-IsBounded u o b;
        room = omega (arith, length-delete-lt o.conid o u.conn_list q.listed, b.bounded);
        same = refl;
      })
]

insert-IsBounded :
    (u : Udpgw) (k : ℕ) (c : UdpConn)
    → IsBounded u
    → length u.conn_list < u.max_conn
    → c.conid ≡ k
    → IsBounded (record u { conn_list = insert k c u.conn_list })
insert-IsBounded u k c b r e = record {
  keyed = All-insert IsKeyed k c u.conn_list e b.keyed;
  distinct = Distinct-insert k c u.conn_list b.distinct;
  bounded = omega (arith, length-insert-le k c u.conn_list);
}

-- A state that the gateway keeps to, packet after packet: its table is bounded, and MaxConn stays.
pub record Keeps (u v : Udpgw) : Type 0 where
  pub valid : IsBounded v
  pub same_max : v.max_conn ≡ u.max_conn

open_conn-Keeps :
    (env : Env) (u : Udpgw) (flags conid : ℕ) (orig : Addr) (payload : Bytes)
    → IsBounded u
    → 0 < u.max_conn
    → Keeps u (open_conn env u flags conid orig payload).1
unfolding open_conn
open_conn-Keeps env u flags conid orig payload b p = go env.dial refl
  where
    room : HasRoom u (limit_conn u)
    room = limit_conn-HasRoom u b p

    go : (r : Result ℕ) → env.dial ≡ r → Keeps u (open_conn env u flags conid orig payload).1
    go (err e) q = rw (q, open_conn) (record { valid = room.valid; same_max = room.same })
    go (ok raw) q =
        let t =
          insert-IsBounded (limit_conn u) conid (new_conn env u raw flags conid orig) room.valid
            room.room refl in
        rw (q, open_conn)
          (record {
            valid = record { keyed = t.keyed; distinct = t.distinct; bounded = t.bounded };
            same_max = room.same;
          })

send-Keeps :
    (env : Env) (u : Udpgw) (conid : ℕ) (c : UdpConn) (n : ℕ) (payload : Bytes)
    → IsBounded u
    → lookup conid u.conn_list ≡ some c
    → Keeps u (send env u conid c n payload).1
send-Keeps env u conid c n payload b e = record {
  valid = record {
    keyed =
        All-insert IsKeyed conid (record c { latest = env.now }) u.conn_list
          (lookup-IsKeyed conid c u.conn_list b.keyed e) b.keyed;
    distinct = Distinct-insert conid (record c { latest = env.now }) u.conn_list b.distinct;
    bounded =
        omega (
          arith,
          length-insert_old conid (record c { latest = env.now }) c u.conn_list e,
          b.bounded,
        );
  };
  same_max = refl;
}

deliver-Keeps :
    (env : Env) (u : Udpgw) (flags conid : ℕ) (orig : Addr) (payload : Bytes)
    → IsBounded u
    → 0 < u.max_conn
    → Keeps u (deliver env u flags conid orig payload).1
unfolding deliver
deliver-Keeps env u flags conid orig payload b p = elim (Option-cases (lookup conid u.conn_list)) [
  | inl e ↦ rw (e, deliver) (open_conn-Keeps env u flags conid orig payload b p)
  | inr (c, e) ↦ rw (e, deliver) (send-Keeps env u conid c (length orig.ip) payload b e)
]

-- Whatever a frame holds and whatever the system answers, procData leaves a bounded table: each
-- connection under its own id, no id twice, at most MaxConn of them, if MaxConn is positive.
pub proc_data-IsBounded :
    (env : Env) (u : Udpgw) (p : Bytes)
    → IsBounded u
    → 0 < u.max_conn
    → Keeps u (proc_data env u p).1
unfolding proc_data
proc_data-IsBounded env u p b h = go (parse p) refl
  where
    go : (r : Parsed) → parse p ≡ r → Keeps u (proc_data env u p).1
    go (packet flags conid orig payload) e =
        rw (e, proc_data) (deliver-Keeps env u flags conid orig payload b h)
    go _ e = rw (e, proc_data) (record { valid = b; same_max = refl })
