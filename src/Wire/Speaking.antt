-- ===== src/Wire/Speaking.antt =====
-- The steps of the handshake in src/wire.rs on a transport that has room.
use kunobi_daemon.Common.{
  ℕ, ◌-◌, ◌≤◌, ◌≡◌, refl, true, false, some, List, [], ◌++◌, arith, Result, ok, err, length,
}
use kunobi_daemon.Wire.{
  Hello, not_refused, Refused, refused, reason_of, refusal_hello, Agreement, hello_limit, validate,
  negotiate, frame, check_refusal, same_service,
}
use kunobi_daemon.Wire.Framing.{
  Codec, FrameError, Framed, framed, write_all, send, receive, encode_frame,
}
use kunobi_daemon.Wire.Frames.{read_exact-append, Fits, frame_of, receive-frame}
use kunobi_daemon.Wire.Handshake.{magic, accepts, wrap, read_acceptance, offered}

-- A fresh transport that brings these bytes and takes so many.
abbrev pub opening : List ℕ → ℕ → Framed
opening incoming room = record {
  io = record { incoming = incoming; outgoing = []; room = room; flushes = true };
  limit = hello_limit;
  failed = false;
}

-- What a write that has room leaves.
abbrev pub wrote : Framed → List ℕ → Framed
wrote f bytes = record f {
  io = record (f.io) { outgoing = f.io.outgoing ++ bytes; room = f.io.room - length bytes };
}

-- What a read leaves.
abbrev pub left : Framed → List ℕ → Framed
left f rest = record f { io = record (f.io) { incoming = rest } }

pub write_all-room :
    (f : Framed) (bytes : List ℕ)
    → length bytes ≤ f.io.room
    → write_all bytes f ≡ (wrote f bytes, ok tt)
unfolding write_all
write_all-room f bytes h = ground arith

pub negotiate-validate :
    (local remote : Hello) (g : Agreement) → negotiate local remote ≡ ok g → validate local ≡ ok tt
unfolding negotiate
negotiate-validate local remote g e = ground arith

pub read_acceptance-accepts :
    (f : Framed) (rest : List ℕ)
    → f.io.incoming ≡ accepts ++ rest
    → read_acceptance f ≡ (left f rest, ok tt)
unfolding read_acceptance
read_acceptance-accepts f rest e = rw (read_exact-append f accepts rest 1 refl e) refl

pub check_refusal-plain : (h : Hello) → h.refusal ≡ some not_refused → check_refusal h ≡ ok tt
unfolding check_refusal
check_refusal-plain h e = rw e refl

pub check_refusal-reason :
    (reason : Refused)
    → check_refusal (refusal_hello (reason_of reason)) ≡ err (refused (reason_of reason))
unfolding check_refusal
check_refusal-reason Refused.protocol_too_old = refl
check_refusal-reason Refused.peer_rejected = refl
check_refusal-reason Refused.retiring = refl

pub frame-reason :
    (reason : Refused) (offer remote : Hello)
    → validate remote ≡ ok tt
    → same_service offer remote ≡ true
    → remote.reads_refusal ≡ true
    → frame reason offer remote ≡ some (refusal_hello (reason_of reason))
unfolding frame
frame-reason reason offer remote valid same reads = ground arith

module _ (codec : Codec Hello) where
  -- The codec decodes what it encodes of this offer, within the limit for offers.
  pub record Travels (m : Hello) : Type 0 where
    pub fits : Fits codec m hello_limit
    pub decodes : codec.decode (codec.encode m) hello_limit ≡ some m

  abbrev pub client_says : Hello → List ℕ
  client_says offer = magic ++ frame_of codec offer ++ accepts

  abbrev pub server_says : Hello → List ℕ
  server_says offer = frame_of codec offer ++ accepts

  -- A session over the rest of the bytes, with what was written.
  abbrev pub IsEstablished :
      Framed × Result FrameError Agreement → Agreement → List ℕ → List ℕ → Type 0
  IsEstablished (f, r) g written rest =
      (r ≡ ok g)
      × (f.io.outgoing ≡ written)
      × (f.io.incoming ≡ rest)
      × (f.limit ≡ g.max_frame)
      × (f.failed ≡ false)

  pub send-room :
      (f : Framed) (m : Hello)
      → f.failed ≡ false
      → f.limit ≡ hello_limit
      → f.io.flushes ≡ true
      → Travels m
      → length (frame_of codec m) ≤ f.io.room
      → send codec m f ≡ (record (wrote f (frame_of codec m)) { failed = false }, ok tt)
  unfolding send encode_frame write_all
  send-room f m live limit flushes t room = ground (arith, t.fits)

  pub receive-offer :
      (f : Framed) (m : Hello) (rest : List ℕ)
      → f.failed ≡ false
      → f.limit ≡ hello_limit
      → Travels m
      → f.io.incoming ≡ frame_of codec m ++ rest
      → receive codec f ≡ (left f rest, ok m)
  receive-offer f m rest live limit t e =
      receive-frame codec f m rest live (omega arith) (rw limit t.fits) (rw limit t.decodes) e

  pub offers :
      (f : Framed) (client : Hello) (rest : List ℕ)
      → f.failed ≡ false
      → f.io.incoming ≡ magic ++ frame_of codec client ++ rest
      → Travels client
      → offered codec f ≡ (record (left f rest) { limit = hello_limit; failed = false }, ok client)
  unfolding offered wrap framed
  offers f client rest live e t =
      rw
        (
          read_exact-append f magic (frame_of codec client ++ rest) 8 refl e,
          receive-offer
              (record (left f (frame_of codec client ++ rest)) {
                limit = hello_limit;
                failed = false;
              })
              client rest refl refl t refl,
        )
        refl
