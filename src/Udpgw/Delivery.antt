-- ===== src/Udpgw/Delivery.antt =====
-- Where the datagram of a packet goes, and the count that procData returns.
use gocs.Prelude.{
  ℕ, ◌+◌, ◌≡◌, refl, none, some, ◌∷◌, Bytes, if◌then◌else◌, arith, length, drop, length-take,
  length-drop, nat_eq, eqb, eqb_iff,
}
use gocs.Prelude.Dict.{lookup, lookup-insert}
use gocs.Errors.{ok}
use gocs.Udpgw.Header.{Addr, packet, parse}
use gocs.Udpgw.{UdpConn, Udpgw, Env, returned, proc_data, deliver, open_conn, limit_conn, new_conn}

-- A packet's bytes are its header, its address and its payload.
parse-length :
    (p : Bytes) (flags conid : ℕ) (orig : Addr) (payload : Bytes)
    → parse p ≡ packet flags conid orig payload
    → length payload + (length orig.ip + 5) ≡ length p
unfolding parse
parse-length p flags conid orig payload h = ground (
  arith,
  length-take 16 (drop 3 p),
  length-take 4 (drop 3 p),
  length-drop 3 p,
  length-drop 21 p,
  length-drop 9 p,
)

-- A packet whose id is in the table, and whose payload the socket of that entry takes whole, goes to
-- that socket, whatever address and flags the packet has: no socket is dialled or closed, the entry
-- keeps its addresses and is marked as used now, the other entries stay, and the count that procData
-- returns is the length of the packet.
pub proc_data-known :
    (env : Env) (u : Udpgw) (p : Bytes) (flags conid : ℕ) (orig : Addr) (payload : Bytes)
    (c : UdpConn) (k : ℕ)
    → parse p ≡ packet flags conid orig payload
    → lookup conid u.conn_list ≡ some c
    → env.written ≡ length payload
    → ((proc_data env u p).0 ≡ returned (length p) env.write_error)
      × ((proc_data env u p).1.sent ≡ (c.raw, payload) ∷ u.sent)
      × ((proc_data env u p).1.opened ≡ u.opened)
      × ((proc_data env u p).1.closed ≡ u.closed)
      × (lookup k (proc_data env u p).1.conn_list
          ≡ (if eqb conid k then some (record c { latest = env.now }) else lookup k u.conn_list))
unfolding proc_data deliver
proc_data-known env u p flags conid orig payload c k e l w =
    rw (e, proc_data)
      (rw (l, deliver)
        (
          ground (arith, parse-length p flags conid orig payload e),
          refl,
          refl,
          refl,
          lookup-insert conid k (record c { latest = env.now }) u.conn_list,
        ))

-- A packet whose id is free, and whose address, or the configured DNS server if it has the DNS
-- flag, can be dialled, enters a connection with the new socket under its id, behind the eviction
-- of a full table, and sends its payload there.
pub proc_data-new :
    (env : Env) (u : Udpgw) (p : Bytes) (flags conid raw : ℕ) (orig : Addr) (payload : Bytes)
    → parse p ≡ packet flags conid orig payload
    → lookup conid u.conn_list ≡ none
    → env.dial ≡ ok raw
    → (lookup conid (proc_data env u p).1.conn_list ≡ some (new_conn env u raw flags conid orig))
      × ((proc_data env u p).1.sent ≡ (raw, payload) ∷ (limit_conn u).sent)
      × ((proc_data env u p).1.opened ≡ raw ∷ (limit_conn u).opened)
unfolding proc_data deliver open_conn
proc_data-new env u p flags conid raw orig payload e l d =
    rw (e, proc_data)
      (rw (l, deliver)
        (rw (d, open_conn)
          (
            ground (
              arith,
              lookup-insert conid conid (new_conn env u raw flags conid orig)
                  (limit_conn u).conn_list,
              eqb_iff conid conid,
            ),
            refl,
            refl,
          )))
