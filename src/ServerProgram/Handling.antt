-- ===== src/ServerProgram/Handling.antt =====
-- DialPiper of cs_server.go, with the target of the udp gateway.
use gocs.Prelude.{Option, none, some, Bytes, codes, bytes_eq, ◌==◌, if◌then◌else◌}
use gocs.Errors.{Error, Result, ok, err}
use gocs.Udpgw.{Udpgw, new_udpgw}
use gocs.Udpgw.Header.{Addr}
use gocs.ServerProgram.{is_empty}

-- What DialPiper hands out: a gateway of its own, or what the dialer made.
pub data Piper (R : Type 0) : Type 0 where
  gateway : Udpgw → Piper R
  dialed : R → Piper R

abbrev with_dns : Result Addr → Udpgw × Option Error
with_dns (ok a) = (record new_udpgw { dns_addr = some a }, none)
with_dns (err e) = (new_udpgw, some e)

abbrev passed_on : {R : Type 0} → Result R → Option (Piper R) × Option Error
passed_on (ok r) = (some (dialed r), none)
passed_on (err e) = (none, some e)

module _ {R : Type 0} (resolve : Bytes → Result Addr) (dial : Bytes → Result R) where
  -- The gateway for the address of a DNS server; it is handed out also where that does not resolve.
  abbrev new_gateway : Bytes → Udpgw × Option Error
  new_gateway dns = if is_empty dns then (new_udpgw, none) else with_dns (resolve dns)

  -- DialPiper
  pub dial_piper : Bytes → Bytes → Option (Piper R) × Option Error
  dial_piper dns uri =
      if uri == codes "tcp://udpgw"
      then (some (gateway (new_gateway dns).0), (new_gateway dns).1)
      else passed_on (dial uri)
