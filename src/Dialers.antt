-- ===== src/Dialers.antt =====
-- The dialers of core/dialer.go. A dialer of pipers is a function on the state that it shares with
-- the others; `url.Parse` is a parameter.
pub mod Net
pub mod Pac
pub mod Skip
pub mod Sorted
pub mod Websocket
use gocs.Prelude.{Bytes}
use gocs.Errors.{Result}

-- What the dialers read of a url.URL: its scheme, Host, and Hostname().
pub record Url : Type 0 where
  pub scheme : Bytes
  pub host : Bytes
  pub hostname : Bytes

abbrev pub PiperDialer : Type 0 → Type 0 → Type 0
PiperDialer S P = Bytes → S → Result P × S
