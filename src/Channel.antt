-- ===== src/Channel.antt =====
-- ChannelConn of core/cs.go. A frame is its command byte, which the code keeps at offset-1, and its
-- body, which starts at the offset; the length in front of them is the frame library's. The raw
-- connection is what it will answer: `inbox` is what the library's reads return, in order, and EOF
-- then; `faults` is the result of each write, in order, and success then. `sent` records the frames
-- that were written, newest first, and `raw_closed` that the raw connection was closed.
pub mod Protocol
use Prim.Native.Nat.{◌/◌, ◌%◌}
use gocs.Prelude.{
  ℕ, ◌+◌, ◌-◌, Bool, true, false, Option, none, some, List, [], ◌∷◌, ◌++◌, ◌≡◌, refl, Bytes, codes,
  ltb, eqb, ◌==◌, bytes_eq, if◌then◌else◌, ◌||◌,
}
use gocs.Errors.{Error, errorf, eof, Result, ok, err}

abbrev pub cmd_conn_dial : ℕ
cmd_conn_dial = 0x10

abbrev pub cmd_conn_back : ℕ
cmd_conn_back = 0x20

abbrev pub cmd_conn_data : ℕ
cmd_conn_data = 0x30

abbrev pub cmd_conn_close : ℕ
cmd_conn_close = 0x40

pub record Frame : Type 0 where
  pub command : ℕ
  pub body : Bytes

pub record Conn : Type 0 where
  pub key : ℕ
  pub last_used : ℕ
  pub error : Option Error
  pub using : Bytes
  pub inbox : List (Result Frame)
  pub faults : List (Option Error)
  pub sent : List Frame
  pub raw_closed : Bool

-- A raw connection as it comes from a dialer or a listener.
pub record Raw : Type 0 where
  pub incoming : List (Result Frame)
  pub outcomes : List (Option Error)

-- NewChannelConn; the key is the address of the new object.
unfoldable pub new_channel_conn : ℕ → ℕ → Raw → Conn
new_channel_conn key now raw = record {
  key = key;
  last_used = now;
  error = none;
  using = [];
  inbox = raw.incoming;
  faults = raw.outcomes;
  sent = [];
  raw_closed = false;
}

abbrev pub is_empty : Bytes → Bool
is_empty [] = true
is_empty (b ∷ s) = false

-- BaseReadWriteCloser.ReadFrame
unfoldable pub raw_read : Conn → Result Frame × Conn
raw_read c = elim c.inbox [ [] ↦ (err eof, c) | r ∷ rest ↦ (r, record c { inbox = rest }) ]

-- BaseReadWriteCloser.WriteFrame
unfoldable pub raw_write : Frame → Conn → Option Error × Conn
raw_write f c = elim c.faults [
  | [] ↦ (none, record c { sent = f ∷ c.sent })
  | none ∷ rest ↦ (none, record c { faults = rest; sent = f ∷ c.sent })
  | some e ∷ rest ↦ (some e, record c { faults = rest })
]

hex_digit : ℕ → ℕ
hex_digit d = if ltb d 10 then b'0' + d else b'a' + (d - 10)

-- fmt's %x of one byte
hex_byte : ℕ → Bytes
unfolding hex_digit
hex_byte b = if ltb b 16 then hex_digit b ∷ [] else hex_digit (b / 16) ∷ hex_digit (b % 16) ∷ []

-- Return an error that is also stored in the connection.
abbrev fail : Conn → Error → Result Frame × Conn
fail c e = (err e, record c { error = some e })

-- The switch of ReadFrame.
unfoldable pub check_frame : Conn → Frame → Result Frame × Conn
unfolding hex_byte
check_frame c f =
    if eqb f.command cmd_conn_back || eqb f.command cmd_conn_dial
    then (if is_empty c.using
        then (ok f, c)
        else fail c (errorf (codes "dial command in using conn")))
    else if eqb f.command cmd_conn_data
    then (if is_empty c.using
        then fail c (errorf (codes "data command in not using conn"))
        else (ok f, c))
    else if eqb f.command cmd_conn_close
    then (err (errorf f.body), c)
    else fail c (errorf (codes "error command:" ++ hex_byte f.command))

abbrev after_read : Result Frame × Conn → Result Frame × Conn
after_read (err e, c) = fail c e
after_read (ok f, c) = check_frame c f

unfoldable pub read_frame : Conn → Result Frame × Conn
unfolding raw_read check_frame
read_frame c = after_read (raw_read c)

abbrev after_write : Option Error × Conn → Option Error × Conn
after_write (none, c) = (none, c)
after_write (some e, c) = (some e, record c { error = some e })

unfoldable pub write_command : ℕ → Bytes → Conn → Option Error × Conn
unfolding raw_write
write_command cmd buffer c = after_write (raw_write (record { command = cmd; body = buffer }) c)

-- WriteFrame stores the data command in front of the buffer that it was given.
pub write_frame : Bytes → Conn → Option Error × Conn
unfolding raw_write
write_frame buffer c = after_write (raw_write (record { command = cmd_conn_data; body = buffer }) c)

abbrev has_error : Conn → Bool
has_error c = elim c.error [ none ↦ false | some e ↦ true ]

-- Close: a healthy connection tells its peer, and the raw connection is closed only behind an
-- error, which may be that of this write.
unfoldable pub close : Conn → Conn
unfolding write_command
close c =
    let told = (if has_error c then c else (write_command cmd_conn_close (codes "closed") c).1) in
    if has_error told then record told { raw_closed = true } else told

-- Ping, over the library's frame.Write of 8 KiB and frame.Read, which are parameters.
module _ (write_all read_some : Conn → Option Error × Conn) where
  ping_echo : Conn → Option Error × Conn
  ping_echo c =
      let written = write_all (record c { using = codes "tcp://echo" }) in
      elim written.0 [ some e ↦ (some e, written.1) | none ↦ read_some written.1 ]

  ping_back : Result Frame × Conn → Option Error × Conn
  unfolding ping_echo
  ping_back (err e, c) = (some e, c)
  ping_back (ok back, c) =
      if back.body == codes "ok" then ping_echo c else (some (errorf back.body), c)

  dialed : Option Error × Conn → Option Error × Conn
  unfolding ping_back read_frame
  dialed (some e, c) = (some e, c)
  dialed (none, c) = ping_back (read_frame c)

  pub ping : Conn → Option Error × Conn
  unfolding dialed write_command
  ping c = dialed (write_command cmd_conn_dial (codes "tcp://echo") c)
