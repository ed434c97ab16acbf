-- ===== src/Dialers/Websocket/Authority.antt =====
-- The address that is dialled for a URL.
use mathlib.Core.List.{append_assoc}
use gocs.Prelude.{
  ℕ, ◌≡◌, ◌≢◌, refl, ap, true, false, ◌||◌, some, [], ◌∷◌, ◌++◌, Bytes, codes, bytes_eq, arith,
}
use gocs.Prelude.Lists.{All}
use gocs.Dialers.Websocket.{holds_byte, plain_port, after_byte, splits, port_map, parse_authority}

-- A text without colons and brackets: a host name, an IPv4 address, or a port.
abbrev pub IsPlain : Bytes → Type 0
IsPlain = All (λ c. (c ≢ b':') × (c ≢ b'[') × (c ≢ b']'))

holds-plain :
    (s : Bytes)
    → IsPlain s
    → (holds_byte b':' s ≡ false) × (holds_byte b'[' s ≡ false) × (holds_byte b']' s ≡ false)
holds-plain [] h = (refl, refl, refl)
holds-plain (c ∷ s) h = ground (arith, holds-plain s h.1)

plain_port-none : (host : Bytes) → IsPlain host → plain_port host ≡ false
unfolding plain_port
plain_port-none [] h = refl
plain_port-none (c ∷ s) h = ground (arith, plain_port-none s h.1)

plain_port-some :
    (host port : Bytes) → IsPlain host → IsPlain port → plain_port (host ++ b':' ∷ port) ≡ true
unfolding plain_port
plain_port-some [] port h p = ground (arith, holds-plain port p)
plain_port-some (c ∷ s) port h p = ground (arith, plain_port-some s port h.1 p)

splits-none : (host : Bytes) → IsPlain host → splits host ≡ false
unfolding splits
splits-none [] h = refl
splits-none (c ∷ s) h = ground (arith, plain_port-none (c ∷ s) h)

splits-some :
    (host port : Bytes) → IsPlain host → IsPlain port → splits (host ++ b':' ∷ port) ≡ true
unfolding splits
splits-some [] port h p = ground (arith, plain_port-some [] port h p)
splits-some (c ∷ s) port h p = ground (arith, plain_port-some (c ∷ s) port h p)

-- For a host name or an IPv4 address, and a scheme with a standard port, the address that is dialled
-- is the host with the port that the URL gives, or with the standard port where it gives none.
pub parse_authority-ports :
    (scheme host port standard : Bytes)
    → port_map scheme ≡ some standard
    → IsPlain host
    → IsPlain port
    → (parse_authority scheme (host ++ b':' ∷ port) ≡ host ++ b':' ∷ port)
      × (parse_authority scheme host ≡ host ++ b':' ∷ standard)
unfolding parse_authority
parse_authority-ports scheme host port standard m h p =
    ground (arith, m, splits-some host port h p, splits-none host h, holds-plain host h)

after_byte-none :
    (s : Bytes) → holds_byte b']' s ≡ false → after_byte b']' (s ++ b']' ∷ []) ≡ some []
unfolding after_byte
after_byte-none [] h = refl
after_byte-none (c ∷ s) h = ground (arith, after_byte-none s)

holds-append : (c : ℕ) (s t : Bytes) → holds_byte c (s ++ t) ≡ (holds_byte c s || holds_byte c t)
holds-append c [] t = refl
holds-append c (b ∷ s) t = ground (arith, holds-append c s t)

-- The Host of a URL with an IPv6 address and no port is the address in brackets; it is dialled with
-- a second pair of brackets around it.
pub parse_authority-brackets :
    (scheme address standard : Bytes)
    → port_map scheme ≡ some standard
    → holds_byte b':' address ≡ true
    → holds_byte b']' address ≡ false
    → parse_authority scheme (b'[' ∷ address ++ codes "]")
      ≡ codes "[[" ++ (address ++ (codes "]]:" ++ standard))
unfolding parse_authority splits
parse_authority-brackets scheme address standard m h k =
    rw (m, no_port, colon, parse_authority)
      (ap (λ t. b'[' ∷ b'[' ∷ t) (append_assoc address (codes "]") (codes "]:" ++ standard)))
  where
    no_port : splits (b'[' ∷ address ++ codes "]") ≡ false
    no_port = ground (arith, after_byte-none address k)

    colon : holds_byte b':' (b'[' ∷ address ++ codes "]") ≡ true
    colon = ground (arith, h, holds-append b':' address (codes "]"))
