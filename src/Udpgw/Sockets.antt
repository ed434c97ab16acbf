-- ===== src/Udpgw/Sockets.antt =====
-- No socket is lost: what was dialled is either still in the table or closed. The one exception is
-- a reader that ends after its id was given to a new connection.
use gocs.Prelude.{
  ℕ, ◌<◌, ◌≡◌, refl, true, ◌||◌, none, some, [], ◌∷◌, Bytes, ltb, eqb, arith, length, Bool-cases,
  Option-cases, inl, inr, nat_eq, eqb_iff,
}
use gocs.Prelude.Dict.{Dict, lookup, insert, delete, Distinct, lookup-delete}
use gocs.Prelude.Keys.{elem, elem-append}
use gocs.Errors.{Result, ok, err}
use gocs.Udpgw.Header.{Addr, Parsed, packet, parse}
use gocs.Udpgw.Bounds.{IsBounded, limit_conn-evicts}
use gocs.Udpgw.{
  UdpConn, Udpgw, Env, raws, expired_raws, live_conns, time_out, close_all, end_read, evict, send,
  open_conn, deliver, proc_data, limit_conn, new_conn,
}

-- Every socket that was dialled is closed or held by a connection of the table.
abbrev pub IsTracked : Udpgw → Type 0
IsTracked u =
    (r : ℕ) → elem r u.opened ≡ true → (elem r u.closed || elem r (raws u.conn_list)) ≡ true

-- The sockets of the table are those of the connections that expire and of those that stay.
elem-time_out :
    (r now timeout : ℕ) (m : Dict ℕ UdpConn)
    → elem r (raws m)
      ≡ (elem r (expired_raws now timeout m) || elem r (raws (live_conns now timeout m)))
unfolding elem raws expired_raws live_conns
elem-time_out r now timeout [] = refl
elem-time_out r now timeout ((i, c) ∷ m) = ground (arith, elem-time_out r now timeout m)

pub time_out-IsTracked :
    (now timeout : ℕ) (u : Udpgw) → IsTracked u → IsTracked (time_out now timeout u)
unfolding time_out
time_out-IsTracked now timeout u t r h =
    rw (elem-append r (expired_raws now timeout u.conn_list) u.closed)
      (ground (arith, t r, elem-time_out r now timeout u.conn_list))

pub close_all-IsTracked : (u : Udpgw) → IsTracked u → IsTracked (close_all u)
unfolding close_all elem
close_all-IsTracked u t r h = ground (arith, t r, elem-append r (raws u.conn_list) u.closed)

-- A fresh entry adds its socket and hides none.
elem-insert_new :
    (r k : ℕ) (c : UdpConn) (m : Dict ℕ UdpConn)
    → lookup k m ≡ none
    → elem r (raws (insert k c m)) ≡ (eqb c.raw r || elem r (raws m))
unfolding elem raws
elem-insert_new r k c [] h = refl
elem-insert_new r k c ((i, w) ∷ m) h = ground (arith, elem-insert_new r k c m, eqb_iff i k)

-- An entry that is written again with the same socket keeps the sockets of the table.
elem-insert_old :
    (r k : ℕ) (c w : UdpConn) (m : Dict ℕ UdpConn)
    → lookup k m ≡ some w
    → c.raw ≡ w.raw
    → elem r (raws (insert k c m)) ≡ elem r (raws m)
unfolding elem raws
elem-insert_old r k c w [] h e = absurd (ground arith)
elem-insert_old r k c w ((i, x) ∷ m) h e = ground (arith, elem-insert_old r k c w m, eqb_iff i k)

elem-delete-none :
    (r k : ℕ) (m : Dict ℕ UdpConn)
    → lookup k m ≡ none
    → elem r (raws (delete k m)) ≡ elem r (raws m)
unfolding elem raws
elem-delete-none r k [] h = refl
elem-delete-none r k ((i, x) ∷ m) h = ground (arith, elem-delete-none r k m, eqb_iff i k)

-- Deleting a key loses the socket of its entry at most.
elem-delete :
    (r k : ℕ) (c : UdpConn) (m : Dict ℕ UdpConn)
    → Distinct m
    → lookup k m ≡ some c
    → elem r (raws m) ≡ (eqb c.raw r || elem r (raws (delete k m)))
unfolding elem raws
elem-delete r k c [] d h = absurd (ground arith)
elem-delete r k c ((i, x) ∷ m) d h =
    ground (arith, elem-delete r k c m d.1, elem-delete-none r k m, eqb_iff i k)

evict-IsTracked :
    (u : Udpgw) (o : UdpConn)
    → IsTracked u
    → Distinct u.conn_list
    → lookup o.conid u.conn_list ≡ some o
    → IsTracked (evict u (some o))
unfolding elem
evict-IsTracked u o t d e r h = ground (arith, t r, elem-delete r o.conid o u.conn_list d e)

-- What limitConn leaves: tracked, with distinct ids, and an id that was free is still free.
record LimitKept (u v : Udpgw) : Type 0 where
  tracked : IsTracked v
  free : (k : ℕ) → lookup k u.conn_list ≡ none → lookup k v.conn_list ≡ none

limit_conn-LimitKept :
    (u : Udpgw) → IsBounded u → 0 < u.max_conn → IsTracked u → LimitKept u (limit_conn u)
limit_conn-LimitKept u b p t = elim (Bool-cases (ltb (length u.conn_list) u.max_conn)) [
  | inl room ↦ unfold limit_conn in rw room (record { tracked = t; free = λ k h. h })
  | inr full ↦
      let (o, e, q) = limit_conn-evicts u b p (ground arith) in
      rw e (record {
        tracked = evict-IsTracked u o t b.distinct q.listed;
        free = λ k h. ground (arith, lookup-delete o.conid k u.conn_list);
      })
]

open_conn-IsTracked :
    (env : Env) (u : Udpgw) (flags conid : ℕ) (orig : Addr) (payload : Bytes)
    → LimitKept u (limit_conn u)
    → lookup conid u.conn_list ≡ none
    → IsTracked (open_conn env u flags conid orig payload).1
unfolding open_conn elem
open_conn-IsTracked env u flags conid orig payload kept fresh = go env.dial refl
  where
    go : (a : Result ℕ) → env.dial ≡ a → IsTracked (open_conn env u flags conid orig payload).1
    go (err e) q = rw (q, open_conn) kept.tracked
    go (ok raw) q =
        rw (q, open_conn)
          (λ r h. ground (
            arith,
            kept.tracked r,
            elem-insert_new r conid (new_conn env u raw flags conid orig) (limit_conn u).conn_list
                (kept.free conid fresh),
          ))

send-IsTracked :
    (env : Env) (u : Udpgw) (conid : ℕ) (c : UdpConn) (n : ℕ) (payload : Bytes)
    → lookup conid u.conn_list ≡ some c
    → IsTracked u
    → IsTracked (send env u conid c n payload).1
send-IsTracked env u conid c n payload e t r h =
    rw (elem-insert_old r conid (record c { latest = env.now }) c u.conn_list e refl) (t r h)

-- procData loses no socket, if the table is bounded and MaxConn is positive: a socket that it
-- evicts is closed, one that it dials is put in the table.
pub proc_data-IsTracked :
    (env : Env) (u : Udpgw) (p : Bytes)
    → IsBounded u
    → 0 < u.max_conn
    → IsTracked u
    → IsTracked (proc_data env u p).1
unfolding proc_data deliver
proc_data-IsTracked env u p b h t = go (parse p) refl
  where
    deliver-IsTracked :
        (flags conid : ℕ) (orig : Addr) (payload : Bytes)
        → IsTracked (deliver env u flags conid orig payload).1
    deliver-IsTracked flags conid orig payload = elim (Option-cases (lookup conid u.conn_list)) [
      | inl e ↦
          rw (e, deliver)
            (open_conn-IsTracked env u flags conid orig payload (limit_conn-LimitKept u b h t) e)
      | inr (c, e) ↦ rw (e, deliver) (send-IsTracked env u conid c (length orig.ip) payload e t)
    ]

    go : (a : Parsed) → parse p ≡ a → IsTracked (proc_data env u p).1
    go (packet flags conid orig payload) e =
        rw (e, proc_data) (deliver-IsTracked flags conid orig payload)
    go _ e = rw (e, proc_data) t

-- A reader that ends while its id is its own, or nobody's, loses no socket.
pub end_read-IsTracked :
    (u : Udpgw) (c : UdpConn)
    → Distinct u.conn_list
    → IsTracked u
    → ((d : UdpConn) → lookup c.conid u.conn_list ≡ some d → d.raw ≡ c.raw)
    → IsTracked (end_read u c)
unfolding end_read elem
end_read-IsTracked u c d t own r h = elim (Option-cases (lookup c.conid u.conn_list)) [
  | inl e ↦ ground (arith, t r, elem-delete-none r c.conid u.conn_list e)
  | inr (w, e) ↦ ground (arith, t r, elem-delete r c.conid w u.conn_list d e, own w e)
]
