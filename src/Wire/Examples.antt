-- ===== src/Wire/Examples.antt =====
-- Offers and frames of src/wire.rs, and the theorems at concrete inputs.
use kunobi_daemon.Common.{
  ◌+◌, Option, none, ◌==◌, if◌then◌else◌, ℕ, ◌≡◌, refl, ap, ◌↔◌, true, false, some, List, [], ◌∷◌,
  ◌++◌, arith, Result, ok, err, replicate,
}
use kunobi_daemon.Identity
use kunobi_daemon.Wire.{
  Hello, Refusal, Refused, Agreement, refused, not_refused, terms_of, agree, validate, valid,
  same_service, negotiate, frame, rejection, refusal_hello,
}
use kunobi_daemon.Wire.Negotiation.{Agrees, agree_iff}
use kunobi_daemon.Wire.Framing.{
  wire, Codec, Framed, FrameError, session_failed, empty_message, out_of_bounds, send, receive,
  write_all, read_exact, encode_frame,
}
use kunobi_daemon.Wire.Handshake.{connect, accept, refuse, magic}
use kunobi_daemon.Wire.Speaking.{opening, Travels, client_says, server_says, IsEstablished}
use kunobi_daemon.Wire.Establish.{refuse_told}
use kunobi_daemon.Wire.Exchange.{both_establish, exchange}
use kunobi_daemon.Wire.Frames.{
  frame_of, send_all, receive_all, receive_all-send_all, receive_error_final,
}

-- A current client, and a server that requires DRAIN (2).
abbrev client : Hello
client = record {
  minimum = 2;
  maximum = 2;
  supported = 0b100011;
  required = 1;
  max_frame = 65_536;
  application = b'k' ∷ b'.' ∷ b'd' ∷ [];
  profile = b'd' ∷ b'e' ∷ b'v' ∷ [];
  instance_name = b'm' ∷ [];
  service_id = replicate 16 7;
  reads_refusal = true;
  refusal = some not_refused;
}

abbrev server : Hello
server = record client { supported = 0b011011; required = 2; max_frame = 4_096 }

-- A client without DRAIN.
abbrev older : Hello
older = record client { supported = 1 }

abbrev agreed : Agreement
agreed = record { version = 2; capabilities = 0b000011; max_frame = 4_096 }

client-server : negotiate client server ≡ ok agreed
unfolding negotiate validate valid agree same_service Identity.new Identity.bad_component
client-server = refl

agree_iff_example :
    (agree (terms_of client) (terms_of server) ≡ ok agreed)
    ↔ Agrees (terms_of client) (terms_of server) agreed
agree_iff_example = agree_iff (terms_of client) (terms_of server) (omega arith) (omega arith) agreed

older_rejected : rejection server older ≡ some (refusal_hello Refusal.protocol_too_old)
unfolding rejection frame validate valid same_service Identity.new Identity.bad_component
older_rejected = refl

-- A codec whose messages are their bytes.
abbrev raw : Codec (List ℕ)
raw = record { encode = λ m. m; decode = λ bytes limit. some bytes }

abbrev sender : Framed
sender = record {
  io = record { incoming = []; outgoing = b'x' ∷ []; room = 100; flushes = true };
  limit = 256;
  failed = false;
}

abbrev messages : List (List ℕ)
messages = (1 ∷ 2 ∷ []) ∷ (3 ∷ []) ∷ []

abbrev written : List ℕ
written = 2 ∷ 0 ∷ 0 ∷ 0 ∷ 1 ∷ 2 ∷ 1 ∷ 0 ∷ 0 ∷ 0 ∷ 3 ∷ []

abbrev receiver : Framed
receiver = record {
  io = record { incoming = written ++ 9 ∷ []; outgoing = []; room = 0; flushes = true };
  limit = 256;
  failed = false;
}

sent : Framed
sent = record sender {
  io = record { incoming = []; outgoing = b'x' ∷ written; room = 89; flushes = true };
}

send_messages : send_all raw messages sender ≡ (sent, ok tt)
unfolding send_all send write_all encode_frame sent
send_messages = refl

receive_all-send_all_example :
    receive_all raw 2 receiver
    ≡ (record receiver { io = record (receiver.io) { incoming = 9 ∷ [] } }, ok messages)
unfolding sent
receive_all-send_all_example =
    receive_all-send_all raw sender sent receiver messages written (9 ∷ []) send_messages refl refl
      refl refl (omega arith) (refl, (refl, tt))

-- A header that exceeds the limit is refused with the body unread.
abbrev oversized : Framed
oversized = record receiver {
  io = record { incoming = 0 ∷ 2 ∷ 0 ∷ 0 ∷ 5 ∷ []; outgoing = []; room = 0; flushes = true };
}

oversized_refused : receive raw oversized ≡ (
  record oversized {
    io = record { incoming = 5 ∷ []; outgoing = []; room = 0; flushes = true };
    failed = true;
  },
  err out_of_bounds,
)
unfolding receive read_exact
oversized_refused = refl

receive_error_final_example :
    (receive raw (receive raw oversized).0 ≡ ((receive raw oversized).0, err session_failed))
    × (send raw (1 ∷ []) (receive raw oversized).0
        ≡ ((receive raw oversized).0, err session_failed))
receive_error_final_example =
    receive_error_final raw oversized out_of_bounds (1 ∷ [])
      (ap (λ (r : Framed × Result FrameError (List ℕ)). r.1) oversized_refused)

empty_refused : (send raw [] sender).1 ≡ err empty_message
unfolding send encode_frame
empty_refused = refl

-- A codec of the two offers and a refusal, each one byte.
abbrev tagged : List ℕ → Option Hello
tagged [] = none
tagged (n ∷ _) =
    if n == 36
    then some client
    else if n == 28
    then some server
    else if n == 1
    then some (refusal_hello Refusal.peer_rejected)
    else none

abbrev tags : Codec Hello
tags = record { encode = λ h. (h.supported + 1) ∷ []; decode = λ bytes limit. tagged bytes }

client-Travels : Travels tags client
client-Travels = record { fits = (omega arith, omega arith); decodes = refl }

server-Travels : Travels tags server
server-Travels = record { fits = (omega arith, omega arith); decodes = refl }

refusal-Travels : Travels tags (refusal_hello Refusal.peer_rejected)
refusal-Travels = record { fits = (omega arith, omega arith); decodes = refl }

both_establish_example :
    let written : List ℕ × List ℕ = exchange tags client server 64 4 in
    (written ≡ (client_says tags client, server_says tags server))
    × IsEstablished tags
        (connect tags client (opening (written.1 ++ 9 ∷ []) 64))
        agreed
        written.0
        (9 ∷ [])
    × IsEstablished tags (accept tags server (opening (written.0 ++ []) 64)) agreed written.1 []
both_establish_example =
    both_establish tags client server agreed (9 ∷ []) [] 64 client-server refl client-Travels
      server-Travels (omega arith) (omega arith)

client_valid : validate client ≡ ok tt
unfolding validate valid Identity.new Identity.bad_component
client_valid = refl

server-client : same_service server client ≡ true
unfolding same_service
server-client = refl

refuse_told_example :
    let done =
      refuse tags server Refused.peer_rejected (opening (magic ++ frame_of tags client ++ []) 64) in
    (done.1 ≡ ok tt)
    × (done.0.io.outgoing ≡ frame_of tags (refusal_hello Refusal.peer_rejected))
    × ((connect tags client (opening (done.0.io.outgoing ++ []) 64)).1
        ≡ err (wire (refused Refusal.peer_rejected)))
refuse_told_example =
    refuse_told tags client server Refused.peer_rejected [] [] 64 client_valid server-client refl
      client-Travels refusal-Travels (omega arith) (omega arith)
