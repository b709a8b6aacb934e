-- ===== src/Wire/Exchange.antt =====
-- Two peers of src/wire.rs that start from nothing, each reading only what the other has written by
-- then.
use kunobi_daemon.Common.{
  ℕ, zero, suc, ◌+◌, ◌<◌, ◌≤◌, ◌≡◌, refl, sym, ap, true, false, some, List, [], ◌++◌, arith, ok,
  err, length, length-append,
}
use mathlib.Core.List.{append-nil}
use mathlib.Core.Path.{subst}
use kunobi_daemon.Wire.{Hello, not_refused, Agreement, validate, negotiate}
use kunobi_daemon.Wire.Framing.{Codec, unexpected_end, Framed, framed, read_exact, receive}
use kunobi_daemon.Wire.Frames.{frame_of}
use kunobi_daemon.Wire.Negotiation.{negotiate_symm}
use kunobi_daemon.Wire.Handshake.{magic, accepts, wrap, read_acceptance, offered, connect, accept}
use kunobi_daemon.Wire.Speaking.{
  opening, wrote, left, write_all-room, negotiate-validate, check_refusal-plain, Travels,
  client_says, server_says, IsEstablished, send-room, receive-offer, offers,
}
use kunobi_daemon.Wire.Establish.{connects, accepts_offer}

read_exact-empty :
    (n : ℕ) (f : Framed)
    → 0 < n
    → f.io.incoming ≡ []
    → read_exact n f ≡ (left f [], err unexpected_end)
unfolding read_exact
read_exact-empty n f h e = ground (arith, e)

read_acceptance-empty :
    (f : Framed) → f.io.incoming ≡ [] → read_acceptance f ≡ (left f [], err unexpected_end)
unfolding read_acceptance
read_acceptance-empty f e = rw (read_exact-empty 1 f (omega arith) e) refl

module _ (codec : Codec Hello) where
  receive-empty :
      (f : Framed)
      → f.failed ≡ false
      → f.io.incoming ≡ []
      → receive codec f ≡ (record (left f []) { failed = true }, err unexpected_end)
  unfolding receive
  receive-empty f live e =
      rw (live, read_exact-empty 4 (record f { failed = true }) (omega arith) e) refl

  offered-empty :
      (f : Framed) → f.io.incoming ≡ [] → offered codec f ≡ (left f [], err unexpected_end)
  unfolding offered
  offered-empty f e = rw (read_exact-empty 8 f (omega arith) e) refl

  -- What each peer has written when the bytes of the other run out.
  connect_opens :
      (client : Hello) (room : ℕ)
      → validate client ≡ ok tt
      → Travels codec client
      → length (client_says codec client) ≤ room
      → (connect codec client (opening [] room)).0.io.outgoing ≡ magic ++ frame_of codec client
  unfolding connect wrap framed
  connect_opens client room valid tc fits =
      let s0 : Framed = opening [] room in
      let s1 : Framed = wrote s0 magic in
      let s2 : Framed = wrote s1 (frame_of codec client) in
      let total : length (codec.encode client ++ accepts) ≡ length (codec.encode client) + 1 =
        length-append (codec.encode client) accepts in
      rw
        (
          valid,
          write_all-room s0 magic (omega (arith, total)),
          send-room codec s1 client refl refl refl tc (omega (arith, total)),
          receive-empty s2 refl refl,
        )
        refl

  connect_accepts :
      (client server : Hello) (g : Agreement) (room : ℕ)
      → negotiate client server ≡ ok g
      → server.refusal ≡ some not_refused
      → Travels codec client
      → Travels codec server
      → length (client_says codec client) ≤ room
      → (connect codec client (opening (frame_of codec server) room)).0.io.outgoing
        ≡ client_says codec client
  unfolding connect wrap framed
  connect_accepts client server g room agreed plain tc ts fits =
      let s0 : Framed = opening (frame_of codec server) room in
      let s1 : Framed = wrote s0 magic in
      let s2 : Framed = wrote s1 (frame_of codec client) in
      let s3 : Framed = left s2 [] in
      let s4 : Framed = wrote s3 accepts in
      let total : length (codec.encode client ++ accepts) ≡ length (codec.encode client) + 1 =
        length-append (codec.encode client) accepts in
      rw
        (
          negotiate-validate client server g agreed,
          write_all-room s0 magic (omega (arith, total)),
          send-room codec s1 client refl refl refl tc (omega (arith, total)),
          receive-offer codec s2 server [] refl refl ts (sym (append-nil (frame_of codec server))),
          check_refusal-plain server plain,
          agreed,
          write_all-room s3 accepts (omega (arith, total)),
          read_acceptance-empty s4 refl,
        )
        refl

  accept_waits :
      (server : Hello) (room : ℕ)
      → validate server ≡ ok tt
      → (accept codec server (opening [] room)).0.io.outgoing ≡ []
  unfolding accept
  accept_waits server room valid = rw (valid, offered-empty (opening [] room) refl) refl

  accept_answers :
      (client server : Hello) (g : Agreement) (room : ℕ)
      → negotiate server client ≡ ok g
      → Travels codec client
      → Travels codec server
      → length (server_says codec server) ≤ room
      → (accept codec server (opening (magic ++ frame_of codec client) room)).0.io.outgoing
        ≡ frame_of codec server
  unfolding accept
  accept_answers client server g room agreed tc ts fits =
      let s0 : Framed = opening (magic ++ frame_of codec client) room in
      let s1 : Framed = left s0 [] in
      let s2 : Framed = wrote s1 (frame_of codec server) in
      let total : length (codec.encode server ++ accepts) ≡ length (codec.encode server) + 1 =
        length-append (codec.encode server) accepts in
      rw
        (
          negotiate-validate server client g agreed,
          offers codec s0 client [] refl
              (ap (λ (z : List ℕ). magic ++ z) (sym (append-nil (frame_of codec client)))) tc,
          agreed,
          send-room codec s1 server refl refl refl ts (omega (arith, total)),
          read_acceptance-empty s2 refl,
        )
        refl

  -- What the client and the server have written after some rounds. In a round each peer reads all
  -- that the other had written before, and goes on until it needs a byte that is not there: what it
  -- has written by then is what the call has written when its transport ends there.
  unfoldable pub exchange : Hello → Hello → ℕ → ℕ → List ℕ × List ℕ
  exchange client server room zero = ([], [])
  exchange client server room (suc n) =
      let before = exchange client server room n in
      (
        (connect codec client (opening before.1 room)).0.io.outgoing,
        (accept codec server (opening before.0 room)).0.io.outgoing,
      )

  exchange-suc :
      (client server : Hello) (room n : ℕ) (c s c' s' : List ℕ)
      → exchange client server room n ≡ (c, s)
      → (connect codec client (opening s room)).0.io.outgoing ≡ c'
      → (accept codec server (opening c room)).0.io.outgoing ≡ s'
      → exchange client server room (suc n) ≡ (c', s')
  unfolding exchange
  exchange-suc client server room n c s c' s' e p q = rw (e, p, q) refl

  exchange_whole :
      (client server : Hello) (g : Agreement) (room : ℕ)
      → negotiate client server ≡ ok g
      → server.refusal ≡ some not_refused
      → Travels codec client
      → Travels codec server
      → length (client_says codec client) ≤ room
      → length (server_says codec server) ≤ room
      → exchange client server room 4 ≡ (client_says codec client, server_says codec server)
  exchange_whole client server g room agreed plain tc ts fc fs =
      let back = negotiate_symm client server g agreed in
      let valid = negotiate-validate client server g agreed in
      let opens = connect_opens client room valid tc fc in
      let answers = accept_answers client server g room back tc ts fs in
      let replies = connect_accepts client server g room agreed plain tc ts fc in
      let established = accepts_offer codec client server g [] room back tc ts fs in
      let one =
        exchange-suc client server room 0 [] [] _ _ (unfold exchange in refl) opens
          (accept_waits server room (negotiate-validate server client g back)) in
      let two = exchange-suc client server room 1 _ _ _ _ one opens answers in
      let three = exchange-suc client server room 2 _ _ _ _ two replies answers in
      exchange-suc client server room 3 _ _ _ _ three replies (
        subst (λ i. (accept codec server (opening i room)).0.io.outgoing ≡ server_says codec server)
          (append-nil (client_says codec client)) established.1)

  -- When the offers agree, two peers that start with nothing written and read only what the other
  -- has written by then do not wait for each other: after four rounds each has written all that the
  -- other needs, and on it both establish a session under that agreement. The client's has written
  -- its magic, its offer and the byte of acceptance, the server's its offer and the byte, and the
  -- bytes that follow are left for the session. The server's offer is not a refusal, the codec
  -- decodes both offers within the limit for offers, and the transports have room.
  pub both_establish :
      (client server : Hello) (g : Agreement) (rest more : List ℕ) (room : ℕ)
      → negotiate client server ≡ ok g
      → server.refusal ≡ some not_refused
      → Travels codec client
      → Travels codec server
      → length (client_says codec client) ≤ room
      → length (server_says codec server) ≤ room
      → let written : List ℕ × List ℕ = exchange client server room 4 in
        (written ≡ (client_says codec client, server_says codec server))
        × IsEstablished codec
            (connect codec client (opening (written.1 ++ rest) room))
            g
            written.0
            rest
        × IsEstablished codec
            (accept codec server (opening (written.0 ++ more) room))
            g
            written.1
            more
  both_establish client server g rest more room agreed plain tc ts fc fs =
      let whole = exchange_whole client server g room agreed plain tc ts fc fs in
      (
        whole,
        rw whole (connects codec client server g rest room agreed plain tc ts fc),
        rw whole (
            accepts_offer codec client server g more room (negotiate_symm client server g agreed) tc
              ts fs),
      )
