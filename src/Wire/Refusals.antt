-- ===== src/Wire/Refusals.antt =====
-- The refusals of src/wire.rs: who is told why, and that a refusal answers a failed negotiation.
use kunobi_daemon.Common.{◌≡◌, ◌≢◌, ◌↔◌, true, some, arith, ok, err}
use Prim.Native.Nat.{bit_and}
use kunobi_daemon.Wire.{
  Hello, Refused, Agreement, refused, reason_of, complement, terms_of, agree, validate,
  same_service, negotiate, frame, rejection, check_refusal, is_ok, refusal_hello,
}
use kunobi_daemon.Wire.Negotiation.{IsWords, Agrees, agree_iff, test_of_Covers}

-- Whatever the reason, a client is answered exactly if it reads refusals, names the service that
-- the server offers, and its own offer is valid; and then it reads that reason out of the answer.
pub frame_told :
    (reason : Refused) (offer remote : Hello)
    → ((is_ok (validate remote) ≡ true)
          × (same_service offer remote ≡ true)
          × (remote.reads_refusal ≡ true)
        ↔ ((h : Hello) × (frame reason offer remote ≡ some h)
            × (check_refusal h ≡ err (refused (reason_of reason)))))
unfolding frame check_refusal
frame_told reason offer remote = (told reason, λ answer. ground arith)
  where
    told :
        (r : Refused)
        → (is_ok (validate remote) ≡ true)
          × (same_service offer remote ≡ true)
          × (remote.reads_refusal ≡ true)
        → (h : Hello) × (frame r offer remote ≡ some h)
          × (check_refusal h ≡ err (refused (reason_of r)))
    told r t = (refusal_hello (reason_of r), ground arith, ground arith)

-- The agreement that a negotiation reached is that of the two offers' terms.
negotiate-agree :
    (local remote : Hello) (g : Agreement)
    → negotiate local remote ≡ ok g
    → agree (terms_of local) (terms_of remote) ≡ ok g
unfolding negotiate
negotiate-agree local remote g e = ground arith

-- The server sends a refusal only where its negotiation fails: no client is both refused and
-- agreed with. The masks of both offers are 64-bit words.
pub rejection_no_agreement :
    (offer remote h : Hello) (g : Agreement)
    → IsWords (terms_of offer)
    → IsWords (terms_of remote)
    → rejection offer remote ≡ some h
    → negotiate offer remote ≢ ok g
unfolding rejection
rejection_no_agreement offer remote h g wo wr e n =
    let agreed : Agrees (terms_of offer) (terms_of remote) g =
      (agree_iff (terms_of offer) (terms_of remote) wo wr g).0 (negotiate-agree offer remote g n) in
    let covered : bit_and offer.required (complement remote.supported) ≡ 0 =
      test_of_Covers remote.supported offer.required wr.supported_fits wo.required_fits
        (λ k. omega (arith, agreed.shared k, agreed.left_required k)) in
    ground (arith, agreed.right_speaks, agreed.version_fixed)
