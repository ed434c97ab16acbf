-- ===== src/Udpgw/Packets.antt =====
-- The wire format of the gateway: a reply parses back to what it was made from, a packet that is
-- too short panics, and the count that procData returns is that of the bytes it has used.
use Prim.Native.Nat.{◌/◌, ◌%◌}
use mathlib.Core.List.{append_assoc}
use mathlib.Core.Path.{ap₂}
use gocs.Prelude.{
  ℕ, zero, suc, ◌+◌, ◌-◌, ◌*◌, ◌<◌, ◌≤◌, ◌≡◌, ◌↔◌, refl, ap, sym, ◌∙◌, inl, inr, false, some, [],
  ◌∷◌, ◌++◌, Bytes, if◌then◌else◌, arith, length, take, drop, length-append, Bool-cases, get_elem?,
}
use gocs.Udpgw.Header.{
  Addr, packet, panics, keepalive, ipv6, dns, has_flag, byte_at, reply_flags, reply_header,
  reply_frame, parse, put_uint16,
}

-- How many bytes of address a packet with these flags carries.
abbrev pub ip_length : ℕ → ℕ
ip_length flags = if has_flag flags ipv6 then 16 else 4

-- procData panics exactly on the packets of at least three bytes, not marked keepalive, that are
-- shorter than the header which their flags announce.
pub parse-panics_iff :
    (p : Bytes)
    → (parse p ≡ panics) ↔ (
        (3 ≤ length p)
        × (has_flag (byte_at p 0) keepalive ≡ false)
        × (length p < 5 + ip_length (byte_at p 0)))
unfolding parse
parse-panics_iff p = (λ h. ground arith, λ h. ground arith)

module _ (hi lo : ℕ) (payload : Bytes) where
  take_ip : (n : ℕ) (ip : Bytes) → length ip ≡ n → take n (ip ++ hi ∷ lo ∷ payload) ≡ ip
  take_ip zero [] h = refl
  take_ip zero (x ∷ ip) h = absurd (omega arith)
  take_ip (suc n) [] h = absurd (omega arith)
  take_ip (suc n) (x ∷ ip) h = ap (◌∷◌ x) (take_ip n ip (omega arith))

  drop_ip :
      (n : ℕ) (ip : Bytes) → length ip ≡ n → drop (suc (suc n)) (ip ++ hi ∷ lo ∷ payload) ≡ payload
  drop_ip zero [] h = refl
  drop_ip zero (x ∷ ip) h = absurd (omega arith)
  drop_ip (suc n) [] h = absurd (omega arith)
  drop_ip (suc n) (x ∷ ip) h = drop_ip n ip (omega arith)

  hi_byte : (n : ℕ) (ip : Bytes) → length ip ≡ n → get_elem? (ip ++ hi ∷ lo ∷ payload) n ≡ some hi
  hi_byte zero [] h = refl
  hi_byte zero (x ∷ ip) h = absurd (omega arith)
  hi_byte (suc n) [] h = absurd (omega arith)
  hi_byte (suc n) (x ∷ ip) h = hi_byte n ip (omega arith)

  lo_byte :
      (n : ℕ) (ip : Bytes) → length ip ≡ n → get_elem? (ip ++ hi ∷ lo ∷ payload) (suc n) ≡ some lo
  lo_byte zero [] h = refl
  lo_byte zero (x ∷ ip) h = absurd (omega arith)
  lo_byte (suc n) [] h = absurd (omega arith)
  lo_byte (suc n) (x ∷ ip) h = lo_byte n ip (omega arith)

  -- A packet from its bytes.
  parse_bytes :
      (f a b : ℕ) (ip : Bytes)
      → has_flag f keepalive ≡ false
      → length ip ≡ ip_length f
      → parse (f ∷ a ∷ b ∷ (ip ++ hi ∷ lo ∷ payload))
        ≡ packet f (a * 256 + b) (record { ip = ip; port = hi * 256 + lo }) payload
  unfolding parse
  parse_bytes f a b ip k h = elim (Bool-cases (has_flag f ipv6)) [
    | inl six ↦
        let e : length ip ≡ 16 = h ∙ rw six in
        ground (
          arith,
          take_ip 16 ip e,
          drop_ip 16 ip e,
          hi_byte 16 ip e,
          lo_byte 16 ip e,
          length-append ip (hi ∷ lo ∷ payload),
        )
    | inr four ↦
        let e : length ip ≡ 4 = h ∙ rw four in
        ground (
          arith,
          take_ip 4 ip e,
          drop_ip 4 ip e,
          hi_byte 4 ip e,
          lo_byte 4 ip e,
          length-append ip (hi ∷ lo ∷ payload),
        )
  ]

take_all : (n : ℕ) (s : Bytes) → length s ≤ n → take n s ≡ s
take_all zero [] h = refl
take_all zero (x ∷ s) h = absurd (omega arith)
take_all (suc n) [] h = refl
take_all (suc n) (x ∷ s) h = ap (◌∷◌ x) (take_all n s (omega arith))

reply_flags_keep :
    (flags : ℕ)
    → (has_flag (reply_flags flags) keepalive ≡ false)
      × (ip_length (reply_flags flags) ≡ ip_length flags)
reply_flags_keep flags = elim (Bool-cases (has_flag flags ipv6)) [
  | inl six ↦ elim (Bool-cases (has_flag flags dns)) [
    | inl d ↦ rw (six, d) (refl, refl)
    | inr d ↦ rw (six, d) (refl, refl)
  ]
  | inr four ↦ elim (Bool-cases (has_flag flags dns)) [
    | inl d ↦ rw (four, d) (refl, refl)
    | inr d ↦ rw (four, d) (refl, refl)
  ]
]

header_append :
    (flags conid : ℕ) (orig : Addr) (payload : Bytes)
    → reply_header flags conid orig ++ payload
      ≡ reply_flags flags
        ∷ (conid / 256 % 256)
        ∷ (conid % 256)
        ∷ (orig.ip ++ (orig.port / 256 % 256) ∷ (orig.port % 256) ∷ payload)
unfolding reply_header
header_append flags conid orig payload =
    ap (λ l. reply_flags flags ∷ (conid / 256 % 256) ∷ (conid % 256) ∷ l)
      (append_assoc orig.ip (put_uint16 orig.port) payload)

length-reply_header :
    (flags conid : ℕ) (orig : Addr) → length (reply_header flags conid orig) ≡ 5 + length orig.ip
unfolding reply_header
length-reply_header flags conid orig = omega (arith, length-append orig.ip (put_uint16 orig.port))

two_bytes : (n : ℕ) → n < 65536 → n / 256 % 256 * 256 + n % 256 ≡ n
two_bytes n h = omega arith

-- For a connection whose id and port are uint16 and whose address is as long as its flags say, and
-- a datagram that fits behind the header in MTU bytes, procRead sends a frame that the parser of
-- procData reads back as that id, that address and that datagram, under the flags of a reply.
pub parse-reply_frame :
    (mtu flags conid : ℕ) (orig : Addr) (datagram : Bytes)
    → conid < 65536
    → orig.port < 65536
    → length orig.ip ≡ ip_length flags
    → 5 + length orig.ip + length datagram ≤ mtu
    → (frame : Bytes) × (reply_frame mtu flags conid orig datagram ≡ some frame)
      × (parse frame ≡ packet (reply_flags flags) conid orig datagram)
unfolding reply_frame
parse-reply_frame mtu flags conid orig datagram hc hp hl fits = (
  reply_header flags conid orig ++ datagram,
  ground (
    arith,
    length-reply_header flags conid orig,
    take_all (mtu - length (reply_header flags conid orig)) datagram,
  ),
  rw header_append (
      parse_bytes (orig.port / 256 % 256) (orig.port % 256) datagram (reply_flags flags)
        (conid / 256 % 256) (conid % 256) orig.ip (reply_flags_keep flags).0
        (hl ∙ sym (reply_flags_keep flags).1)
      ∙ ap₂ (λ c q. packet (reply_flags flags) c (record { ip = orig.ip; port = q }) datagram)
          (two_bytes conid hc) (two_bytes orig.port hp)),
)
