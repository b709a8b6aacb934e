-- ===== src/Wire/Handshake.antt =====
-- The establishment of a `Session` in src/wire.rs: connect, accept and refuse. The transport stands
-- in the state of a `Framed` from the start; what `Framed::new` makes of it is set where the code
-- makes it.
use kunobi_daemon.Common.{same_bytes, ℕ, Option, none, some, List, [], ◌∷◌, Result, ok, err}
use kunobi_daemon.Wire.{
  Hello, WireError, Agreement, Refused, hello_limit, validate, negotiate, frame, rejection,
  check_refusal,
}
use kunobi_daemon.Wire.Framing.{
  Codec, FrameError, bad_magic, not_accepted, wire, Framed, framed, Method, ◌>>=◌, ◌>>◌, return,
  lift, guard, from_wire, write_all, flush, read_exact, send, receive,
}

abbrev pub magic : List ℕ
magic = b'K' ∷ b'N' ∷ b'D' ∷ b'P' ∷ b'B' ∷ b'0' ∷ b'0' ∷ b'2' ∷ []

-- The byte of acceptance.
abbrev pub accepts : List ℕ
accepts = 1 ∷ []

framed_of : Framed → Result FrameError Framed → Framed × Result FrameError (Unit {0})
framed_of f (ok g) = (g, ok tt)
framed_of f (err e) = (f, err e)

-- `Framed::new(io, HELLO_LIMIT)?`.
unfoldable pub wrap : Method (Unit {0})
unfolding framed_of
wrap f = framed_of f (framed f.io hello_limit)

unfoldable pub set_limit : ℕ → Method (Unit {0})
set_limit limit f = (record f { limit = limit }, ok tt)

-- `let _ = ...`.
abbrev pub ignore :
    {A : Type 0} → Framed × Result FrameError A → Framed × Result FrameError (Unit {0})
ignore (f, r) = (f, ok tt)

unfoldable pub read_acceptance : Method (Unit {0})
read_acceptance f = (do accepted ← read_exact 1; guard (same_bytes accepted accepts) not_accepted) f

module _ (codec : Codec Hello) where
  -- `Session::connect`.
  unfoldable pub connect : Hello → Method Agreement
  connect offer f =
      (do
        lift (from_wire (validate offer))
        write_all magic
        wrap
        send codec offer
        remote ← receive codec
        lift (from_wire (check_refusal remote))
        agreement ← lift (from_wire (negotiate offer remote))
        write_all accepts
        flush
        read_acceptance
        set_limit agreement.max_frame
        return agreement)
        f

  -- `Session::offered`.
  unfoldable pub offered : Method Hello
  offered f =
      (do read ← read_exact 8; guard (same_bytes read magic) bad_magic; wrap; receive codec) f

  tell : Option Hello → Method (Unit {0})
  tell (some refusal) f = ignore (send codec refusal f)
  tell none f = (f, ok tt)

  -- The rest of `accept`, by what the negotiation gave.
  answer_offer : Hello → Hello → Result WireError Agreement → Method Agreement
  answer_offer offer remote (ok agreement) f =
      (do
        send codec offer
        read_acceptance
        write_all accepts
        flush
        set_limit agreement.max_frame
        return agreement)
        f
  answer_offer offer remote (err error) f =
      (do tell (rejection offer remote); lift (err (wire error))) f

  -- `Session::accept`.
  unfoldable pub accept : Hello → Method Agreement
  unfolding answer_offer tell
  accept offer f =
      (do
        lift (from_wire (validate offer))
        remote ← offered
        answer_offer offer remote (negotiate offer remote))
        f

  send_refusal : Option Hello → Method (Unit {0})
  send_refusal (some refusal) f = send codec refusal f
  send_refusal none f = (f, ok tt)

  -- `Session::refuse`.
  unfoldable pub refuse : Hello → Refused → Method (Unit {0})
  unfolding send_refusal
  refuse offer reason f = (do remote ← offered; send_refusal (frame reason offer remote)) f
