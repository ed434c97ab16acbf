-- ===== src/Ports.antt =====
-- Listen and connect addresses with port ranges: parsePortAddr of cs_common.go, parseListenAddr of
-- cs_server.go and parseConnAddr of cs_client.go. A port is an int64 that ParseInt(_, 10, 32) has
-- read, so `i++` does not wrap.
pub mod RoundTrip
use gocs.Prelude.{
  ℕ, zero, suc, ◌+◌, ◌-◌, Bool, true, false, ◌&&◌, ◌||◌, ◌≡◌, refl, Option, none, some, List, [],
  ◌∷◌, ◌++◌, Bytes, codes, leb, eqb, if◌then◌else◌,
}
use gocs.Errors.{Error, errorf, syntax, Result, ok, err, ◌>>=◌}
use gocs.GoText.{split, split_two, trim}
use gocs.GoText.Decimal.{ℤ, pos, negsuc, parse_int, show_int}

-- `(addrs, err)`
abbrev pub Addrs : Type 0
Addrs = List Bytes × Option Error

-- The last port of a part: its first, if the part has no '-'.
end_port : ℤ → Option Bytes → Result ℤ
end_port start none = ok start
end_port start (some last) = parse_int last

-- `start` and `end` of one comma-separated part.
port_range : Bytes → Result (ℤ × ℤ)
unfolding end_port split_two
port_range part = do
  start ← parse_int (split_two b'-' part).0
  end ← end_port start (split_two b'-' part).1
  ok (start, end)

-- How often `for i := start; i <= end; i++` runs.
rounds : ℤ → ℤ → ℕ
rounds (pos a) (pos b) = suc b - a
rounds (pos a) (negsuc b) = 0
rounds (negsuc a) (pos b) = suc a + suc b
rounds (negsuc a) (negsuc b) = suc a - b

next : ℤ → ℤ
next (pos a) = pos (suc a)
next (negsuc zero) = pos 0
next (negsuc (suc a)) = negsuc a

-- The loop's body, for the rounds that are left.
emit : Bytes → Bytes → ℕ → ℤ → List Bytes
unfolding next
emit prefix subffix zero i = []
emit prefix subffix (suc n) i = (prefix ++ show_int i ++ subffix) ∷ emit prefix subffix n (next i)

parse_parts : Bytes → Bytes → List Bytes → List Bytes → Addrs
unfolding port_range rounds emit
parse_parts prefix subffix addrs [] = (addrs, none)
parse_parts prefix subffix addrs (part ∷ parts) = elim (port_range part) [
  | err e ↦ (addrs, some e)
  | ok (start, end) ↦
      parse_parts prefix subffix (addrs ++ emit prefix subffix (rounds start end) start) parts
]

unfoldable pub parse_port_addr : Bytes → Bytes → Bytes → Addrs
unfolding parse_parts split
parse_port_addr prefix addr subffix = parse_parts prefix subffix [] (split b',' addr)

parse_host : Bytes → Option Bytes → Addrs
parse_host host none = ([], some (errorf (codes "invalid uri")))
parse_host host (some ports) = parse_port_addr (host ++ codes ":") ports []

unfoldable pub parse_listen_addr : Bytes → Addrs
unfolding parse_host parse_port_addr split_two
parse_listen_addr addr = parse_host (split_two b':' addr).0 (split_two b':' addr).1

-- The class [0-9\\,\\-] of addrRegexp: digits, backslash, comma and dash.
port_byte : ℕ → Bool
port_byte c = (leb b'0' c && leb c b'9') || eqb c b'\\' || eqb c b',' || eqb c b'-'

-- `[0-9\\,\\-]*/` at the head of a text: the ports, and what stands behind the slash.
ports_slash : Bytes → Option (Bytes × Bytes)
unfolding port_byte
ports_slash [] = none
ports_slash (c ∷ s) =
    let rest = ports_slash s in
    if eqb c b'/'
    then some ([], s)
    else if port_byte c
    then (elim rest [ none ↦ none | some (p, r) ↦ some (c ∷ p, r) ])
    else none

-- A match of addrRegexp, `:[0-9\\,\\-]+/`, behind its colon: at least one port byte.
match_here : Bytes → Option (Bytes × Bytes)
unfolding ports_slash
match_here s = elim (ports_slash s) [
  | none ↦ none
  | some (p, r) ↦ elim p [ [] ↦ none | b ∷ bs ↦ some (b ∷ bs, r) ]
]

abbrev Found : Type 0
Found = Bytes × Bytes × Bytes

shift : ℕ → Option Found → Option Found
shift c none = none
shift c (some (a, p, r)) = some (c ∷ a, p, r)

first_found : Option (Bytes × Bytes) → Option Found → Option Found
first_found none later = later
first_found (some (p, r)) later = some ([], p, r)

-- The leftmost match: the text before it, the ports in it, the text behind it.
find_ports : Bytes → Option Found
unfolding match_here shift first_found
find_ports [] = none
find_ports (c ∷ s) =
    let later = shift c (find_ports s) in
    if eqb c b':' then first_found (match_here s) later else later

-- `addrRegexp.Split(addr, 2)` has two parts exactly if there is a match. `strings.Trim(_, ":/")`
-- takes the colon and the slash off it.
unfoldable pub parse_conn_addr : Bytes → Addrs
unfolding find_ports parse_port_addr
parse_conn_addr addr = elim (find_ports addr) [
  | none ↦ ([], some (errorf (codes "invalid uri")))
  | some (host, ports, path) ↦ parse_port_addr (host ++ codes ":") ports (codes "/" ++ path)
]
