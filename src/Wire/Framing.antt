-- ===== src/Wire/Framing.antt =====
-- `Framed` and the sending and receiving half of `Session` in src/wire.rs: length-prefixed
-- messages over a transport. The message codec (the buffa crate) is a parameter. The transport is
-- a pair of byte queues on which a write may break off after any number of bytes. The scratch
-- buffers hold nothing between two calls and are left out.
use kunobi_daemon.Common.{
  ◌||◌, ℕ, ◌+◌, ◌-◌, ◌*◌, ◌/◌, ◌%◌, Bool, true, false, ◌&&◌, not, Option, none, some, List, [], ◌∷◌,
  ◌++◌, Result, ok, err, length, take, drop, ltb, leb, ◌==◌, if◌then◌else◌,
}
use kunobi_daemon.Wire.{WireError, Control, Agreement, min_frame, max_frame, check}

pub record Codec (M : Type 0) : Type 0 where
  pub encode : M → List ℕ
  pub decode : List ℕ → ℕ → Option M

-- `room`: how many more bytes the transport takes before its writes fail.
pub record Transport : Type 0 where
  pub incoming : List ℕ
  pub outgoing : List ℕ
  pub room : ℕ
  pub flushes : Bool

pub data FrameError : Type 0 where
  invalid_limit session_failed encoding empty_message : FrameError
  write_failed flush_failed unexpected_end out_of_bounds decoding not_accepted bad_magic :
      FrameError
  wire : WireError → FrameError

pub record Framed : Type 0 where
  pub io : Transport
  pub limit : ℕ
  pub failed : Bool

-- A method on `&mut self`.
abbrev pub Method : Type 0 → Type 0
Method A = Framed → Framed × Result FrameError A

abbrev pub after :
    {A B : Type 0} → Framed × Result FrameError A → (A → Method B) → Framed × Result FrameError B
after (f, ok a) k = k a f
after (f, err e) k = (f, err e)

infixl 5 ◌>>=◌ ◌>>◌
abbrev pub ◌>>=◌ : {A B : Type 0} → Method A → (A → Method B) → Method B
◌>>=◌ m k f = after (m f) k

abbrev pub ◌>>◌ : {B : Type 0} → Method (Unit {0}) → Method B → Method B
m >> k = m >>= λ _. k

abbrev pub return : {A : Type 0} → A → Method A
return a f = (f, ok a)

abbrev pub lift : {A : Type 0} → Result FrameError A → Method A
lift r f = (f, r)

abbrev pub guard : Bool → FrameError → Method (Unit {0})
guard true e f = (f, ok tt)
guard false e f = (f, err e)

abbrev pub set_failed : Bool → Method (Unit {0})
set_failed b f = (record f { failed = b }, ok tt)

abbrev pub usable : Method (Unit {0})
usable f = guard (not f.failed) session_failed f

unfoldable pub write_all : List ℕ → Method (Unit {0})
write_all bytes f =
    if leb (length bytes) f.io.room
    then (
      record f {
        io = record (f.io) { outgoing = f.io.outgoing ++ bytes; room = f.io.room - length bytes };
      },
      ok tt,
    )
    else (
      record f {
        io = record (f.io) { outgoing = f.io.outgoing ++ take f.io.room bytes; room = 0 };
      },
      err write_failed,
    )

abbrev pub flush : Method (Unit {0})
flush f = guard f.io.flushes flush_failed f

-- `read_exact` of so many bytes: a transport that ends early is drained.
unfoldable pub read_exact : ℕ → Method (List ℕ)
read_exact n f =
    if leb n (length f.io.incoming)
    then (
      record f { io = record (f.io) { incoming = drop n f.io.incoming } },
      ok (take n f.io.incoming),
    )
    else (record f { io = record (f.io) { incoming = [] } }, err unexpected_end)

-- `u32::to_le_bytes` and `u32::from_le_bytes`.
abbrev pub to_le_bytes : ℕ → List ℕ
to_le_bytes n = n % 256 ∷ n / 256 % 256 ∷ n / 65_536 % 256 ∷ n / 16_777_216 % 256 ∷ []

abbrev pub from_le_bytes : List ℕ → ℕ
from_le_bytes [] = 0
from_le_bytes (b ∷ bs) = b + 256 * from_le_bytes bs

abbrev pub or_decoding : {A : Type 0} → Option A → Result FrameError A
or_decoding (some a) = ok a
or_decoding none = err decoding

module _ {M : Type 0} (codec : Codec M) where
  unfoldable pub encode_frame : M → ℕ → Result FrameError (List ℕ)
  encode_frame message limit =
      let body : List ℕ = codec.encode message in
      if ltb limit (length body)
      then err encoding
      else if length body == 0
      then err empty_message
      else ok (to_le_bytes (length body) ++ body)

  -- `Framed::send`.
  unfoldable pub send : M → Method (Unit {0})
  send message f =
      (do
        usable
        frame ← lift (encode_frame message f.limit)
        set_failed true
        write_all frame
        flush
        set_failed false)
        f

  -- `Framed::receive`.
  unfoldable pub receive : Method M
  receive f =
      (do
        usable
        set_failed true
        header ← read_exact 4
        let n = from_le_bytes header
        guard (not (n == 0 || ltb f.limit n)) out_of_bounds
        body ← read_exact n
        value ← lift (or_decoding (codec.decode body f.limit))
        set_failed false
        return value)
        f

-- `Framed::new`.
unfoldable pub framed : Transport → ℕ → Result FrameError Framed
framed io limit =
    if leb min_frame limit && leb limit max_frame
    then ok (record { io = io; limit = limit; failed = false })
    else err invalid_limit

abbrev pub from_wire : {A : Type 0} → Result WireError A → Result FrameError A
from_wire (ok a) = ok a
from_wire (err e) = err (wire e)

module _ (codec : Codec Control) (agreement : Agreement) where
  -- `Session::send`.
  unfoldable pub session_send : Control → Method (Unit {0})
  session_send message = do lift (from_wire (check agreement message)); send codec message

  poison : Result WireError (Unit {0}) → Control → Method Control
  poison (ok _) message f = (f, ok message)
  poison (err e) message f = (record f { failed = true }, err (wire e))

  -- `Session::receive`.
  unfoldable pub session_receive : Method Control
  unfolding poison
  session_receive = do message ← receive codec; poison (check agreement message) message
