-- ===== src/Witnesses/Runs.antt =====
-- Runs of the text functions on fixed inputs.
use gocs.Prelude.{eqb, ◌≡◌, refl, ◌||◌, none, some, [], ◌∷◌, codes}
use gocs.Errors.{syntax, out_of_range, ok, err}
use gocs.GoText.{split, trim}
use gocs.GoText.Decimal.{pos, negsuc, parse_int, show_int}
use gocs.Ports.{parse_port_addr, parse_conn_addr}

split_test : split b',' (codes "a,,b") ≡ codes "a" ∷ [] ∷ codes "b" ∷ []
unfolding split
split_test = refl

trim_test : trim (λ c. eqb c b'.' || eqb c b' ') (codes " .a.b. ") ≡ codes "a.b"
unfolding trim
trim_test = refl

decimal_test :
    (parse_int (codes "5200") ≡ ok (pos 5200))
    × (parse_int (codes "-3") ≡ ok (negsuc 2))
    × (parse_int (codes "2147483648") ≡ err (out_of_range (codes "2147483648")))
    × (parse_int (codes "1x") ≡ err (syntax (codes "1x")))
    × (show_int (pos 5210) ≡ codes "5210")
unfolding parse_int show_int
decimal_test = (refl, refl, refl, refl, refl)

parse_port_addr_test :
    parse_port_addr (codes "h:") (codes "80,8000-8002") (codes "/x")
    ≡ (codes "h:80/x" ∷ codes "h:8000/x" ∷ codes "h:8001/x" ∷ codes "h:8002/x" ∷ [], none)
unfolding parse_port_addr parse_int show_int
parse_port_addr_test = refl

parse_port_addr_error :
    parse_port_addr (codes "h:") (codes "1,-5") [] ≡ (codes "h:1" ∷ [], some (syntax []))
unfolding parse_port_addr parse_int show_int
parse_port_addr_error = refl

parse_conn_addr_test :
    parse_conn_addr (codes "wss://1.2.3.4:5200-5201/cover?a=1")
    ≡ (codes "wss://1.2.3.4:5200/cover?a=1" ∷ codes "wss://1.2.3.4:5201/cover?a=1" ∷ [], none)
unfolding parse_conn_addr parse_int show_int
parse_conn_addr_test = refl
