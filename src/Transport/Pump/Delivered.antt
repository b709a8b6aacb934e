-- ===== src/Transport/Pump/Delivered.antt =====
-- What the pumps of src/transport.rs deliver.
use kunobi_daemon.Common.{
  ℕ, ◌≡◌, ◌≢◌, refl, sym, ap, ◌∙◌, ◌⊎◌, true, false, Option, none, some, List, [], ◌∷◌, ◌++◌,
  Result, ok, err, inl, inr, Bool-cases,
}
use mathlib.Core.List.{append_assoc, append-nil}
use kunobi_daemon.Transport.{WriteHalf}
use kunobi_daemon.Transport.Writer.{write_flush}
use kunobi_daemon.Transport.Writer.Boundary.{Faithful, write_flush-taken}
use kunobi_daemon.Transport.Pump.{
  Received, got, interrupted, broken, PumpExit, peer_closed, client_gone, PumpError, copying,
  half_close, copy_flushing, half_closed, pump_upstream, pump_downstream,
}
use kunobi_daemon.Transport.Pump.Refused.{
  AllCopied, AllTaken, at_end, copy_flushing-AllCopied, End, end_of, given, IsRefused, IsWhole,
  lost, open_still, IsRefused-here, IsRefused-interrupted, IsRefused-later, stream,
}

module _ {W : Type 0} ⦃io : WriteHalf W⦄ (f : Faithful W) where
  chunk_taken :
      (b : ℕ) (bytes : List ℕ) (reads : List Received) (w last : W)
      → (write_flush w (b ∷ bytes)).1 ≡ true
      → f.taken last ≡ f.taken (write_flush w (b ∷ bytes)).0 ++ stream reads
      → f.taken last ≡ f.taken w ++ ((b ∷ bytes) ++ stream reads)
  chunk_taken b bytes reads w last e h =
      h
      ∙ (rw (write_flush-taken f w (b ∷ bytes) e)
          (append_assoc (f.taken w) (b ∷ bytes) (stream reads)))

  given-taken :
      (reads : List Received) (w : W)
      → AllTaken w reads
      → f.taken (given w reads) ≡ f.taken w ++ stream reads
  given-taken [] w h = sym (append-nil (f.taken w))
  given-taken (got [] ∷ reads) w h = sym (append-nil (f.taken w))
  given-taken (got (b ∷ bytes) ∷ reads) w h =
      chunk_taken b bytes reads w (given (write_flush w (b ∷ bytes)).0 reads) h.0
        (given-taken reads (write_flush w (b ∷ bytes)).0 h.1)
  given-taken (interrupted ∷ reads) w h = given-taken reads w h
  given-taken (broken ∷ reads) w h = sym (append-nil (f.taken w))

  -- The stream ended in some way, and the writer has all of it, in order.
  abbrev pub IsDelivered : End → List Received → W → W → Type 0
  IsDelivered end reads w last =
      (end_of reads ≡ end) × AllTaken w reads × (f.taken last ≡ f.taken w ++ stream reads)

  IsWhole-IsDelivered :
      (end : End) (reads : List Received) (w last : W)
      → IsWhole end reads w last
      → IsDelivered end reads w last
  IsWhole-IsDelivered end reads w last (ends, all, e) =
      (ends, all, ap f.taken e ∙ given-taken reads w all)

  -- A chunk was refused, when the writer had all that was read before it.
  abbrev pub IsCut : List Received → W → W → Type 0
  IsCut reads w last =
      (h : IsRefused reads w last) × (f.taken (given w h.before) ≡ f.taken w ++ stream h.before)

  IsRefused-IsCut :
      (reads : List Received) (w last : W) → IsRefused reads w last → IsCut reads w last
  IsRefused-IsCut reads w last h = (h, given-taken h.before w h.before_taken)

  -- What a pump upstream has done when it leaves the peer's writer as it was before the half-close.
  abbrev pub Told : List Received → W → W → Result PumpError (Unit {0}) → Type 0
  Told reads w last (ok u) = IsDelivered at_end reads w last × ((io.shutdown_write last).1 ≡ true)
  Told reads w last (err copying) = IsCut reads w last ⊎ IsDelivered lost reads w last
  Told reads w last (err half_close) =
      IsDelivered at_end reads w last × ((io.shutdown_write last).1 ≡ false)

  abbrev pub IsPumped : List Received → W → Option (W × Result PumpError (Unit {0})) → Type 0
  IsPumped reads w none = (end_of reads ≡ open_still) × AllTaken w reads
  IsPumped reads w (some (w', r)) =
      (last : W) × (w' ≡ (io.shutdown_write last).0) × Told reads w last r

  half_closed-IsPumped :
      (reads : List Received) (w w' : W) (r : Result PumpError (Unit {0}))
      → AllCopied reads w (some (w', r))
      → IsPumped reads w (some (half_closed (w', r)))
  unfolding AllCopied half_closed
  half_closed-IsPumped reads w w' (ok u) h = elim (Bool-cases (io.shutdown_write w').1) [
    | inl e ↦ rw e (w', refl, (IsWhole-IsDelivered at_end reads w w' h, e))
    | inr e ↦ rw e (w', refl, (IsWhole-IsDelivered at_end reads w w' h, e))
  ]
  half_closed-IsPumped reads w w' (err copying) (inl h) =
      (w', refl, inl (IsRefused-IsCut reads w w' h))
  half_closed-IsPumped reads w w' (err copying) (inr h) =
      (w', refl, inr (IsWhole-IsDelivered lost reads w w' h))
  half_closed-IsPumped reads w w' (err half_close) h = absurd h

  -- A pump upstream goes on as long as its stream is open and its peer takes every chunk; an
  -- interrupted read changes nothing. When it returns, it has half-closed the peer, whatever went
  -- wrong. It succeeds, or reports that the half-close failed, only when the stream came to its end
  -- and all of it went to the peer in order. It reports a failed copy only when a read broke, with
  -- all that came before it given to the peer, or when the write or flush of some chunk failed, the
  -- first one that did, with all that came before that chunk given to the peer.
  pub pump_upstream-IsPumped :
      (reads : List Received) (w : W) → IsPumped reads w (pump_upstream reads w)
  unfolding pump_upstream
  pump_upstream-IsPumped reads w = shut (copy_flushing reads w) (copy_flushing-AllCopied reads w)
    where
      shut :
          (c : Option (W × Result PumpError (Unit {0})))
          → AllCopied reads w c
          → IsPumped reads w (elim c [ none ↦ none | some copied ↦ some (half_closed copied) ])
      shut none h = unfold AllCopied in h
      shut (some (w', r)) h = half_closed-IsPumped reads w w' r h

  -- The last flush, after the end of the stream, failed.
  abbrev pub IsUnflushed : List Received → W → W → Type 0
  IsUnflushed reads w w' =
      (last : W) × IsDelivered at_end reads w last
      × ((io.flush last).1 ≡ false)
      × (w' ≡ (io.flush last).0)

  -- What a pump downstream has done.
  abbrev pub IsGiven : List Received → W → Option (W × PumpExit) → Type 0
  IsGiven reads w none = (end_of reads ≡ open_still) × AllTaken w reads
  IsGiven reads w (some (w', peer_closed)) =
      (end_of reads ≢ open_still) × AllTaken w reads × (f.taken w' ≡ f.taken w ++ stream reads)
  IsGiven reads w (some (w', client_gone)) = IsCut reads w w' ⊎ IsUnflushed reads w w'

  IsGiven-chunk :
      (b : ℕ) (bytes : List ℕ) (reads : List Received) (w : W) (r : Option (W × PumpExit))
      → (write_flush w (b ∷ bytes)).1 ≡ true
      → IsGiven reads (write_flush w (b ∷ bytes)).0 r
      → IsGiven (got (b ∷ bytes) ∷ reads) w r
  IsGiven-chunk b bytes reads w none e h = (h.0, (e, h.1))
  IsGiven-chunk b bytes reads w (some (w', peer_closed)) e (end, all, got_all) =
      (end, (e, all), chunk_taken b bytes reads w w' e got_all)
  IsGiven-chunk b bytes reads w (some (w', client_gone)) e (inl (h, all)) =
      inl (IsRefused-IsCut (got (b ∷ bytes) ∷ reads) w w' (IsRefused-later b bytes reads w w' e h))
  IsGiven-chunk b bytes reads w (some (w', client_gone)) e
        (inr (last, (end, all, t), failed, left)) =
      inr (last, (end, (e, all), chunk_taken b bytes reads w last e t), failed, left)

  IsGiven-interrupted :
      (reads : List Received) (w : W) (r : Option (W × PumpExit))
      → IsGiven reads w r
      → IsGiven (interrupted ∷ reads) w r
  IsGiven-interrupted reads w none h = h
  IsGiven-interrupted reads w (some (w', peer_closed)) h = h
  IsGiven-interrupted reads w (some (w', client_gone)) (inl (h, all)) =
      inl (IsRefused-IsCut (interrupted ∷ reads) w w' (IsRefused-interrupted reads w w' h))
  IsGiven-interrupted reads w (some (w', client_gone)) (inr h) = inr h

  -- A pump downstream goes on as long as its stream is open and the client takes every chunk; an
  -- interrupted read changes nothing. If it reports that the peer closed, then the stream ended or
  -- broke, and the client has all that came before that, in order. It reports that the client is gone
  -- only when the write or flush of some chunk failed, the first one that did, with all that came
  -- before that chunk given to the client, or when the stream came to its end, the client was given
  -- all of it, and the last flush failed.
  pub pump_downstream-IsGiven :
      (reads : List Received) (w : W) → IsGiven reads w (pump_downstream reads w)
  unfolding pump_downstream
  pump_downstream-IsGiven [] w = (refl, tt)
  pump_downstream-IsGiven (got [] ∷ reads) w = elim (Bool-cases (io.flush w).1) [
    | inl e ↦ rw e (cc, tt, f.flushed w ∙ sym (append-nil (f.taken w)))
    | inr e ↦ rw e (inr (w, (refl, tt, sym (append-nil (f.taken w))), e, refl))
  ]
  pump_downstream-IsGiven (got (b ∷ bytes) ∷ reads) w =
      elim (Bool-cases (write_flush w (b ∷ bytes)).1) [
        | inl e ↦ rw e (
            IsGiven-chunk b bytes reads w (pump_downstream reads (write_flush w (b ∷ bytes)).0) e
              (pump_downstream-IsGiven reads (write_flush w (b ∷ bytes)).0))
        | inr e ↦ rw e (
            inl (
              IsRefused-IsCut (got (b ∷ bytes) ∷ reads) w (write_flush w (b ∷ bytes)).0
                (IsRefused-here b bytes reads w e)))
      ]
  pump_downstream-IsGiven (interrupted ∷ reads) w =
      IsGiven-interrupted reads w (pump_downstream reads w) (pump_downstream-IsGiven reads w)
  pump_downstream-IsGiven (broken ∷ reads) w = (cc, tt, sym (append-nil (f.taken w)))
