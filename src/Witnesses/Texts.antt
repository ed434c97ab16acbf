-- ===== src/Witnesses/Texts.antt =====
-- Concrete configuration texts and rule files.
use gocs.Prelude.{
  ◌≡◌, ◌≢◌, refl, false, if◌then◌else◌, Option, none, some, List, [], ◌∷◌, ◌++◌, Bytes, codes,
  arith, All, map,
}
use gocs.Errors.{ok}
use gocs.GoText.{join, trim}
use gocs.Ports.{parse_port_addr}
use gocs.Ports.RoundTrip.{
  Part, single, range, show_part, IsPort, addresses, all_ports, parse_port_addr-show_parts,
}
use gocs.Gfw.{find, domain_cut, read_gfw_rules, newline}
use gocs.GoText.Splitting.{Lacks}
use gocs.Gfw.Matching.{names, hits, any_hit, find-client, client_gfw}
use gocs.Gfw.Rules.{wanted_gfw, wanted_user, read_gfw_rules-lines}

abbrev parts : List Part
parts = single 80 ∷ range 8000 8002 ∷ []

parts-IsPort : All IsPort parts
parts-IsPort = (omega arith, ((omega arith, omega arith), tt))

parse_port_addr-show_parts_example :
    parse_port_addr (codes "h:") (join (codes ",") (map show_part parts)) (codes "/x")
    ≡ (addresses (codes "h:") (codes "/x") (all_ports parts), none)
parse_port_addr-show_parts_example =
    parse_port_addr-show_parts (codes "h:") (codes "/x") (single 80) (range 8000 8002 ∷ [])
      parts-IsPort

-- A regexp library whose one pattern finds itself in any text of more than one byte.
abbrev find_all : Bytes → Bytes
find_all [] = []
find_all (b ∷ []) = []
find_all (b ∷ c ∷ s) = b ∷ c ∷ s

abbrev compile : Bytes → Option (Bytes → Bytes)
compile pattern = some find_all

abbrev rules : Bytes
rules = codes "||example.com"

rules_other : rules ≢ codes "*"
rules_other e = absurd (ground arith)

abbrev ends : List Bytes
ends = codes "com" ∷ []

plain : All (Lacks b'.') (codes "a" ∷ ends)
plain = ground arith

trimmed :
    trim domain_cut (join (codes ".") (codes "a" ∷ ends)) ≡ join (codes ".") (codes "a" ∷ ends)
unfolding join trim
trimmed = refl

some_text : join (codes ".") (codes "a" ∷ ends) ≢ []
unfolding join
some_text e = absurd (ground arith)

quiet : All (λ n. hits compile n (codes "*") ≡ false) (names (codes "a" ∷ ends))
quiet = (refl, tt)

abbrev gfw_lines : List Bytes
gfw_lines = codes "||a.com" ∷ codes "! old" ∷ []

abbrev user_lines : List Bytes
user_lines = codes "-- mine" ∷ codes " b.com" ∷ []

read_gfw_rules-lines_test :
    read_gfw_rules ok (ok (join (newline ∷ []) gfw_lines)) (ok (join (newline ∷ []) user_lines))
    ≡ ok (wanted_gfw gfw_lines ++ wanted_user user_lines)
read_gfw_rules-lines_test =
    read_gfw_rules-lines ok (join (newline ∷ []) gfw_lines) (codes "||a.com") (codes "-- mine")
      (codes "! old" ∷ []) (codes " b.com" ∷ []) refl (ground arith) (ground arith)

find-client_example :
    find compile (client_gfw rules) (join (codes ".") (codes "a" ∷ ends))
    ≡ (if any_hit compile rules (names (codes "a" ∷ ends)) then codes "proxy" else codes "local")
find-client_example =
    find-client compile rules (codes "a") ends rules_other plain some_text trimmed quiet
