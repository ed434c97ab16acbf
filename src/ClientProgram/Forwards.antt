-- ===== src/ClientProgram/Forwards.antt =====
-- The forwards of cs_client.go: a goroutine of startForward for each, which listens, is entered in
-- ForwardAll, and gives its listener back when the accepting ends. The goroutines run between Start
-- and Stop in any order; the lock around ForwardAll makes each part one step.
pub mod Releasing
use gocs.Prelude.{ℕ, ◌≡◌, Option, none, some, Bytes, codes, bytes_eq}
use gocs.Prelude.Dict.{lookup, insert, delete}
use gocs.Errors.{Error, Result, ok, err}
use gocs.Dialers.{Url}
use gocs.ClientProgram.{Client, take, close_one}

-- The client, with the goroutine of `local` behind its first part.
abbrev pub begun : Bytes → Client → Client
begun local c = record c { spawned = delete local c.spawned }

abbrev pub listened : Bytes → Option Error → Client → Client
listened local (some e) c = c
listened local none c = record (take c) { forward_all = insert local c.next c.forward_all }

-- The deferred function of startForward, whose listener is r.
unfoldable pub end_forward : ℕ → Bytes → Client → Client
end_forward r local c = record (close_one r c) { forward_all = delete local c.forward_all }

module _ (parse : Bytes → Result Url) (listen : Bytes → Bytes → Option Error) where
  abbrev pub parsed : Bytes → Result Url → Client → Client
  parsed local (err e) c = c
  parsed local (ok u) c = listened local (listen u.scheme u.host) c

  -- startForward, up to its loop.
  unfoldable pub begin_forward : Bytes → Client → Client
  begin_forward local c = parsed local (parse local) (begun local c)

  -- What the goroutines of the forwards do, one part at a time.
  pub data Step : Client → Client → Type 0 where
    begins :
        {c : Client} (local remote : Bytes)
        → lookup local c.spawned ≡ some remote
        → Step c (begin_forward local c)
    ends :
        {c : Client} (local : Bytes) (r : ℕ)
        → lookup local c.forward_all ≡ some r
        → Step c (end_forward r local c)

  pub data Forwards : Client → Client → Type 0 where
    idle : {c : Client} → Forwards c c
    more : {c d e : Client} → Forwards c d → Step d e → Forwards c e
