-- ===== src/Chanio.antt =====
-- Channels as byte streams: internal/chanio/chanio.go.
--
-- What the `select` of a call gets is an argument: the next message, the closed channel or the
-- closed `done` channel, in the order in which they come. `none` means that a call is still blocked
-- after all of them. Logging and the constructors' nil checks are left out.
pub mod Streams
pub mod Delivery
use dutctl.Base.{
  ℕ, ◌+◌, ◌-◌, Bool, true, false, Option, none, some, List, [], ◌∷◌, ◌++◌, ◌==◌, ◌&&◌, nat_eq, ltb,
  leb, if◌then◌else◌, Text, length, take, drop,
}

pub data Arrival : Type 0 where
  message : Text → Arrival
  channel_closed done_closed : Arrival

-- What `Read` returns: the bytes that it has copied, and whether `io.EOF` comes with them. The
-- reader keeps the buffer; the arrivals that are left wait for the next call.
pub record Got : Type 0 where
  pub bytes : Text
  pub eof : Bool
  pub buf : Text
  pub waiting : List Arrival

-- The loop of `Read`, with the bytes from the buffer and the room behind them.
unfoldable pub receive : Text → ℕ → Text → List Arrival → Option Got
receive from_buf room buf [] = none
receive from_buf room buf (done_closed ∷ rest) =
    some (record { bytes = from_buf; eof = true; buf = buf; waiting = rest })
receive from_buf room buf (channel_closed ∷ rest) =
    some (record { bytes = from_buf; eof = true; buf = buf; waiting = rest })
receive from_buf room buf (message chunk ∷ rest) =
    let copied = take room chunk in
    let kept =
      if ltb (length copied) (length chunk) then buf ++ drop (length copied) chunk else buf in
    let again = receive from_buf room kept rest in
    if length from_buf + length copied == 0
    then again
    else some (record { bytes = from_buf ++ copied; eof = false; buf = kept; waiting = rest })

-- `ChanReader.Read` into a slice of `want` bytes.
unfoldable pub read : Text → ℕ → List Arrival → Option Got
unfolding receive
read buf want rest =
    let now : Got = record {
      bytes = take want buf;
      eof = false;
      buf = drop want buf;
      waiting = rest;
    } in
    if leb want (length buf)
    then some now
    else if ltb 0 (length buf) && (length (take want buf) == want)
    then some now
    else receive (take want buf) (want - length (take want buf)) (drop want buf) rest

-- What the `select` of `Write` gets.
pub data Taken : Type 0 where
  receiver_takes : Taken
  torn_down : Taken

-- `ChanWriter.Write`: the number of bytes, whether `io.ErrClosedPipe` comes with it, and the
-- message that is sent.
unfoldable pub write : Text → Taken → ℕ × Bool × Option Text
write bytes receiver_takes = (length bytes, false, some bytes)
write bytes torn_down = (0, true, none)
