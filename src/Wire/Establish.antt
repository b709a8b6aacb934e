-- ===== src/Wire/Establish.antt =====
-- What each peer of src/wire.rs reaches when it reads all that the other writes.
use kunobi_daemon.Common.{
  ℕ, ◌+◌, ◌≤◌, ◌≡◌, refl, ap, true, some, List, ◌++◌, arith, ok, err, length, length-append,
}
use mathlib.Core.List.{append_assoc}
use kunobi_daemon.Wire.{
  Hello, not_refused, Refused, refused, reason_of, refusal_hello, Agreement, validate, negotiate,
  same_service,
}
use kunobi_daemon.Wire.Framing.{Codec, wire, Framed, framed}
use kunobi_daemon.Wire.Frames.{frame_of}
use kunobi_daemon.Wire.Handshake.{magic, accepts, wrap, set_limit, connect, accept, refuse}
use kunobi_daemon.Wire.Speaking.{
  opening, wrote, left, write_all-room, negotiate-validate, read_acceptance-accepts,
  check_refusal-plain, check_refusal-reason, frame-reason, Travels, client_says, server_says,
  IsEstablished, send-room, receive-offer, offers,
}

module _ (codec : Codec Hello) where
  pub connects :
      (client server : Hello) (g : Agreement) (rest : List ℕ) (room : ℕ)
      → negotiate client server ≡ ok g
      → server.refusal ≡ some not_refused
      → Travels codec client
      → Travels codec server
      → length (client_says codec client) ≤ room
      → IsEstablished codec
          (connect codec client (opening (server_says codec server ++ rest) room))
          g
          (client_says codec client)
          rest
  unfolding connect wrap framed set_limit
  connects client server g rest room agreed plain tc ts fits =
      let s0 : Framed = opening (server_says codec server ++ rest) room in
      let s1 : Framed = wrote s0 magic in
      let s2 : Framed = wrote s1 (frame_of codec client) in
      let s3 : Framed = left s2 (accepts ++ rest) in
      let s4 : Framed = wrote s3 accepts in
      let total : length (codec.encode client ++ accepts) ≡ length (codec.encode client) + 1 =
        length-append (codec.encode client) accepts in
      rw
        (
          negotiate-validate client server g agreed,
          write_all-room s0 magic (omega arith),
          send-room codec s1 client refl refl refl tc (omega (arith, total)),
          receive-offer codec s2 server (accepts ++ rest) refl refl ts
              (append_assoc (frame_of codec server) accepts rest),
          check_refusal-plain server plain,
          agreed,
          write_all-room s3 accepts (omega (arith, total)),
          read_acceptance-accepts s4 rest refl,
        )
        (refl, refl, refl, refl, refl)

  pub accepts_offer :
      (client server : Hello) (g : Agreement) (rest : List ℕ) (room : ℕ)
      → negotiate server client ≡ ok g
      → Travels codec client
      → Travels codec server
      → length (server_says codec server) ≤ room
      → IsEstablished codec
          (accept codec server (opening (client_says codec client ++ rest) room))
          g
          (server_says codec server)
          rest
  unfolding accept set_limit
  accepts_offer client server g rest room agreed tc ts fits =
      let s0 : Framed = opening (client_says codec client ++ rest) room in
      let s1 : Framed = left s0 (accepts ++ rest) in
      let s2 : Framed = wrote s1 (frame_of codec server) in
      let s3 : Framed = left s2 rest in
      let total : length (codec.encode server ++ accepts) ≡ length (codec.encode server) + 1 =
        length-append (codec.encode server) accepts in
      rw
        (
          negotiate-validate server client g agreed,
          offers codec s0 client (accepts ++ rest) refl
              (ap (λ (z : List ℕ). magic ++ z) (append_assoc (frame_of codec client) accepts rest))
              tc,
          agreed,
          send-room codec s1 server refl refl refl ts (omega (arith, total)),
          read_acceptance-accepts s2 rest refl,
          write_all-room s3 accepts (omega (arith, total)),
        )
        (refl, refl, refl, refl, refl)

  hears :
      (client : Hello) (reason : Refused) (rest : List ℕ) (room : ℕ)
      → validate client ≡ ok tt
      → Travels codec client
      → Travels codec (refusal_hello (reason_of reason))
      → length (client_says codec client) ≤ room
      → (connect codec client
          (opening (frame_of codec (refusal_hello (reason_of reason)) ++ rest) room)).1
        ≡ err (wire (refused (reason_of reason)))
  unfolding connect wrap framed
  hears client reason rest room valid tc tr fits =
      let said : List ℕ = frame_of codec (refusal_hello (reason_of reason)) in
      let s0 : Framed = opening (said ++ rest) room in
      let s1 : Framed = wrote s0 magic in
      let s2 : Framed = wrote s1 (frame_of codec client) in
      let total : length (codec.encode client ++ accepts) ≡ length (codec.encode client) + 1 =
        length-append (codec.encode client) accepts in
      rw
        (
          valid,
          write_all-room s0 magic (omega (arith, total)),
          send-room codec s1 client refl refl refl tc (omega (arith, total)),
          receive-offer codec s2 (refusal_hello (reason_of reason)) rest refl refl tr refl,
          check_refusal-reason reason,
        )
        refl

  -- A server that refuses a client tells it why: if the client's offer is valid, names the server's
  -- service and reads refusals, the refusal succeeds and has written one frame, and the client that
  -- reads this frame fails with exactly that reason. The codec decodes both messages within the
  -- limit for offers, and the transports have room.
  pub refuse_told :
      (client server : Hello) (reason : Refused) (rest more : List ℕ) (room : ℕ)
      → validate client ≡ ok tt
      → same_service server client ≡ true
      → client.reads_refusal ≡ true
      → Travels codec client
      → Travels codec (refusal_hello (reason_of reason))
      → length (client_says codec client) ≤ room
      → length (frame_of codec (refusal_hello (reason_of reason))) ≤ room
      → let done =
          refuse codec server reason (opening (magic ++ frame_of codec client ++ more) room) in
        (done.1 ≡ ok tt)
        × (done.0.io.outgoing ≡ frame_of codec (refusal_hello (reason_of reason)))
        × ((connect codec client (opening (done.0.io.outgoing ++ rest) room)).1
            ≡ err (wire (refused (reason_of reason))))
  unfolding refuse
  refuse_told client server reason rest more room valid same reads tc tr fc fr =
      let s0 : Framed = opening (magic ++ frame_of codec client ++ more) room in
      let s1 : Framed = left s0 more in
      rw
        (
          offers codec s0 client more refl refl tc,
          frame-reason reason server client valid same reads,
          send-room codec s1 (refusal_hello (reason_of reason)) refl refl refl tr fr,
        )
        (refl, refl, hears client reason rest room valid tc tr fc)
