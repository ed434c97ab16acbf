-- ===== src/Udpgw/Pipe.antt =====
-- PipeConn: when its loop ends by a panic.
use gocs.Prelude.{◌≡◌, ◌≢◌, ◌↔◌, refl, true, List, [], ◌∷◌, Bytes, arith}
use gocs.Udpgw.Header.{Parsed, packet, panics, data_error, keeps_alive, parse}
use gocs.Udpgw.{
  Udpgw, Env, Ended, by_read_error, by_panic, returned, panicked, Outcome, proc_data, deliver,
  Event, arrives, sweeps, reader_ends, time_out, end_read, open_conn, pipe_frames, pipe_conn,
  stopped,
}

-- procData panics exactly where the parse of its packet does.
proc_data-panics :
    (env : Env) (u : Udpgw) (p : Bytes) → ((proc_data env u p).0 ≡ panicked) ↔ (parse p ≡ panics)
unfolding proc_data deliver open_conn
proc_data-panics env u p = go (parse p) refl
  where
    go : (a : Parsed) → parse p ≡ a → ((proc_data env u p).0 ≡ panicked) ↔ (parse p ≡ panics)
    go (packet flags conid orig payload) e = (λ h. ground arith, λ h. ground arith)
    go panics e = (λ h. ground arith, λ h. ground arith)
    go data_error e = (λ h. ground arith, λ h. ground arith)
    go keeps_alive e = (λ h. ground arith, λ h. ground arith)

-- The frames among the events that the loop of PipeConn gets through: all of them, unless the packet
-- in one panics.
abbrev pub NoPanic : List Event → Type 0
NoPanic [] = Unit
NoPanic (arrives env p ∷ events) = (parse p ≢ panics) × NoPanic events
NoPanic (sweeps now timeout ∷ events) = NoPanic events
NoPanic (reader_ends conn ∷ events) = NoPanic events

pipe_frames-NoPanic :
    (u : Udpgw) (events : List Event) → ((pipe_frames u events).0 ≡ by_read_error) ↔ NoPanic events
unfolding pipe_frames
pipe_frames-NoPanic u [] = (λ h. tt, λ h. refl)
pipe_frames-NoPanic u (sweeps now timeout ∷ events) =
    pipe_frames-NoPanic (time_out now timeout u) events
pipe_frames-NoPanic u (reader_ends conn ∷ events) = pipe_frames-NoPanic (end_read u conn) events
pipe_frames-NoPanic u (arrives env p ∷ events) =
    go (pipe_frames-NoPanic (proc_data env u p).1 events) (proc_data env u p).0 refl
  where
    go :
        ((pipe_frames (proc_data env u p).1 events).0 ≡ by_read_error) ↔ NoPanic events
        → (o : Outcome) → (proc_data env u p).0 ≡ o
        → ((pipe_frames u (arrives env p ∷ events)).0 ≡ by_read_error)
          ↔ NoPanic (arrives env p ∷ events)
    go ih (returned n e) q =
        rw (q, pipe_frames)
          (λ h. ((λ x. cc (q, (proc_data-panics env u p).1 x)), ih.0 h), λ h. ih.1 h.1)
    go ih panicked q =
        rw (q, pipe_frames) (λ h. absurd (cc h), λ h. absurd (h.0 ((proc_data-panics env u p).0 q)))

-- PipeConn on a frame connection returns, whatever sweeps and ends of readers come between its
-- frames, exactly if no frame holds a packet on which procData panics; otherwise the panic leaves it.
pub pipe_conn-stopped :
    (u : Udpgw) (events : List Event) → ((pipe_conn true u events).0 ≡ stopped) ↔ NoPanic events
unfolding pipe_conn
pipe_conn-stopped u events = go (pipe_frames-NoPanic u events) (pipe_frames u events).0 refl
  where
    go :
        ((pipe_frames u events).0 ≡ by_read_error) ↔ NoPanic events
        → (e : Ended) → (pipe_frames u events).0 ≡ e
        → ((pipe_conn true u events).0 ≡ stopped) ↔ NoPanic events
    go f by_read_error q = rw (q, pipe_conn) (λ h. f.0 q, λ h. refl)
    go f by_panic q = rw (q, pipe_conn) (λ h. absurd (cc h), λ h. cc (q, f.1 h))
