-- ===== src/Udpgw/Header.antt =====
-- The packets of udpgw/udpgw.go: what procData reads from a frame, and what procRead puts in front
-- of a datagram.
use Prim.Native.Nat.{◌/◌, ◌%◌}
use gocs.Prelude.{
  ℕ, ◌+◌, ◌-◌, ◌*◌, Bool, Option, none, some, [], ◌∷◌, ◌++◌, Bytes, ltb, eqb, if◌then◌else◌, length,
  take, drop, get_elem?,
}

pub data Flag : Type 0 where
  keepalive rebind dns ipv6 : Flag

-- UDPGW_CLIENT_FLAG_KEEPALIVE, _REBIND, _DNS and _IPV6
abbrev pub mask : Flag → ℕ
mask keepalive = 1
mask rebind = 2
mask dns = 4
mask ipv6 = 8

-- `flags&F == F`, for the one bit of F.
abbrev pub has_flag : ℕ → Flag → Bool
has_flag flags f = eqb (flags / mask f % 2) 1

abbrev or_zero : Option ℕ → ℕ
or_zero none = 0
or_zero (some b) = b

-- p[i], where the code has tested that i is in range.
abbrev pub byte_at : Bytes → ℕ → ℕ
byte_at p i = or_zero (get_elem? p i)

-- binary.BigEndian.Uint16(p[i:])
abbrev pub uint16_at : Bytes → ℕ → ℕ
uint16_at p i = byte_at p i * 256 + byte_at p (i + 1)

-- A net.UDPAddr.
pub record Addr : Type 0 where
  pub ip : Bytes
  pub port : ℕ

pub data Parsed : Type 0 where
  data_error keeps_alive panics : Parsed
  packet : ℕ → ℕ → Addr → Bytes → Parsed

-- With n bytes of IP address: `p[3 : 3+n]`, the port behind it, and `p[5+n:]`, which panics if the
-- packet is shorter than that.
abbrev parse_addr : ℕ → Bytes → Parsed
parse_addr n p =
    if ltb (length p) (5 + n)
    then panics
    else packet (byte_at p 0) (uint16_at p 1)
        (record { ip = take n (drop 3 p); port = uint16_at p (3 + n) }) (drop (5 + n) p)

-- procData down to the lookup of the connection.
unfoldable pub parse : Bytes → Parsed
parse p =
    if ltb (length p) 3
    then data_error
    else if has_flag (byte_at p 0) keepalive
    then keeps_alive
    else if has_flag (byte_at p 0) ipv6
    then parse_addr 16 p
    else parse_addr 4 p

-- The flags of a reply: the bits that procRead copies from the connection's.
abbrev pub reply_flags : ℕ → ℕ
reply_flags flags =
    (if has_flag flags ipv6 then mask ipv6 else 0) + (if has_flag flags dns then mask dns else 0)

-- binary.BigEndian.PutUint16
abbrev pub put_uint16 : ℕ → Bytes
put_uint16 n = (n / 256 % 256) ∷ (n % 256) ∷ []

-- The header that procRead writes once: flags, connection id, address and port.
unfoldable pub reply_header : ℕ → ℕ → Addr → Bytes
reply_header flags conid orig =
    reply_flags flags ∷ (put_uint16 conid ++ (orig.ip ++ put_uint16 orig.port))

-- The frame for one datagram. The buffer has `mtu` bytes behind the frame's own header; where the
-- reply header does not fit, the writes into the buffer panic, and a longer datagram is cut.
unfoldable pub reply_frame : ℕ → ℕ → ℕ → Addr → Bytes → Option Bytes
unfolding reply_header
reply_frame mtu flags conid orig datagram =
    let header = reply_header flags conid orig in
    if ltb mtu (length header) then none else some (header ++ take (mtu - length header) datagram)
