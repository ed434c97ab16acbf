-- ===== src/Dialers/Net.antt =====
-- NetDialer and MapAliasURI. The dialers of the net package are a parameter: what a dial of a
-- network and an address answers. `url.Parse` is one too.
use gocs.Prelude.{Option, none, some, ◌++◌, Bytes, codes, if◌then◌else◌, ◌==◌, bytes_eq}
use gocs.Prelude.Dict.{Dict, lookup}
use gocs.Errors.{errorf, Result, ok, err}
use gocs.GoText.{contains}
use gocs.Dialers.{Url}

-- What NetDialer.Dial hands out: an echo, or a connection of a network.
pub data NetConn (R : Type 0) : Type 0 where
  echo_conn : NetConn R
  net_conn : R → NetConn R

pub data Network : Type 0 where
  udp tcp : Network

pub record NetDialer : Type 0 where
  pub dns : Bytes
  pub alias : Option (Dict Bytes Bytes)

abbrev pub or_target : Bytes → Option Bytes → Bytes
or_target target none = target
or_target target (some remote) = remote

module _ (parse : Bytes → Result Url) where
  -- MapAliasURI.Find
  unfoldable pub alias_find : Dict Bytes Bytes → Bytes → Result Bytes
  alias_find m target = elim (parse target) [
    | err e ↦ err e
    | ok u ↦ ok (or_target target (lookup u.host m))
  ]

  -- `n.Alias.Find(target)`, if there is an alias.
  abbrev pub really : NetDialer → Bytes → Result Bytes
  really n target = elim n.alias [ none ↦ ok target | some m ↦ alias_find m target ]

  module _ {R : Type 0} (raw_dial : Network → Bytes → Result R) where
    abbrev pub connected : Result R → Result (NetConn R)
    connected (err e) = err e
    connected (ok raw) = ok (net_conn raw)

    -- The switch over the scheme.
    unfoldable pub by_scheme : NetDialer → Url → Result (NetConn R)
    by_scheme n u =
        if u.hostname == codes "echo"
        then ok echo_conn
        else if u.scheme == codes "echo"
        then ok echo_conn
        else if u.scheme == codes "dns"
        then connected (raw_dial udp n.dns)
        else if u.scheme == codes "udp"
        then connected (raw_dial udp u.host)
        else if u.scheme == codes "tcp"
        then connected (raw_dial tcp u.host)
        else err (errorf (codes "not supported scheme " ++ u.scheme))

    unfoldable pub dial_remote : NetDialer → Bytes → Result (NetConn R)
    unfolding by_scheme contains
    dial_remote n remote =
        if contains remote (codes "://")
        then (elim (parse remote) [ err e ↦ err e | ok u ↦ by_scheme n u ])
        else connected (raw_dial tcp remote)

    -- NetDialer.Dial
    unfoldable pub net_dial : NetDialer → Bytes → Result (NetConn R)
    unfolding dial_remote alias_find
    net_dial n target = elim (really n target) [ err e ↦ err e | ok remote ↦ dial_remote n remote ]
