-- ===== src/Transport/Pump/Refused.antt =====
-- What ends the copying of the pumps of src/transport.rs, chunk by chunk.
use kunobi_daemon.Common.{
  ℕ, ◌≡◌, refl, ap, ◌⊎◌, true, false, Option, none, some, List, [], ◌∷◌, ◌++◌, Result, ok, err, inl,
  inr, Bool-cases,
}
use kunobi_daemon.Transport.{WriteHalf}
use kunobi_daemon.Transport.Writer.{write_flush}
use kunobi_daemon.Transport.Pump.{
  Received, got, interrupted, broken, PumpError, copying, half_close, copy_flushing,
}

-- How the stream that the reads come from ends, if it does.
pub data End : Type 0 where
  open_still at_end lost : End

abbrev pub end_of : List Received → End
end_of [] = open_still
end_of (got [] ∷ reads) = at_end
end_of (got (b ∷ bytes) ∷ reads) = end_of reads
end_of (interrupted ∷ reads) = end_of reads
end_of (broken ∷ reads) = lost

-- All that the stream brings until then.
abbrev pub stream : List Received → List ℕ
stream [] = []
stream (got [] ∷ reads) = []
stream (got (b ∷ bytes) ∷ reads) = (b ∷ bytes) ++ stream reads
stream (interrupted ∷ reads) = stream reads
stream (broken ∷ reads) = []

module _ {W : Type 0} ⦃io : WriteHalf W⦄ where
  -- The writer after every chunk of the reads has been written and flushed.
  abbrev pub given : W → List Received → W
  given w [] = w
  given w (got [] ∷ reads) = w
  given w (got (b ∷ bytes) ∷ reads) = given (write_flush w (b ∷ bytes)).0 reads
  given w (interrupted ∷ reads) = given w reads
  given w (broken ∷ reads) = w

  -- None of these writes and flushes failed.
  abbrev pub AllTaken : W → List Received → Type 0
  AllTaken w [] = Unit {0}
  AllTaken w (got [] ∷ reads) = Unit {0}
  AllTaken w (got (b ∷ bytes) ∷ reads) =
      ((write_flush w (b ∷ bytes)).1 ≡ true) × AllTaken (write_flush w (b ∷ bytes)).0 reads
  AllTaken w (interrupted ∷ reads) = AllTaken w reads
  AllTaken w (broken ∷ reads) = Unit {0}

  -- The first chunk whose write or flush fails, with what was read before and after it.
  pub record IsRefused (reads : List Received) (w last : W) : Type 0 where
    pub before : List Received
    pub first : ℕ
    pub bytes : List ℕ
    pub after : List Received
    pub split : reads ≡ before ++ (got (first ∷ bytes) ∷ after)
    pub unended : end_of before ≡ open_still
    pub before_taken : AllTaken w before
    pub refused : (write_flush (given w before) (first ∷ bytes)).1 ≡ false
    pub left : last ≡ (write_flush (given w before) (first ∷ bytes)).0

  pub IsRefused-here :
      (b : ℕ) (bytes : List ℕ) (reads : List Received) (w : W)
      → (write_flush w (b ∷ bytes)).1 ≡ false
      → IsRefused (got (b ∷ bytes) ∷ reads) w (write_flush w (b ∷ bytes)).0
  IsRefused-here b bytes reads w e = record {
    before = [];
    first = b;
    bytes = bytes;
    after = reads;
    split = refl;
    unended = refl;
    before_taken = tt;
    refused = e;
    left = refl;
  }

  pub IsRefused-later :
      (b : ℕ) (bytes : List ℕ) (reads : List Received) (w last : W)
      → (write_flush w (b ∷ bytes)).1 ≡ true
      → IsRefused reads (write_flush w (b ∷ bytes)).0 last
      → IsRefused (got (b ∷ bytes) ∷ reads) w last
  IsRefused-later b bytes reads w last e h = record {
    before = got (b ∷ bytes) ∷ h.before;
    first = h.first;
    bytes = h.bytes;
    after = h.after;
    split = ap (λ rest. got (b ∷ bytes) ∷ rest) h.split;
    unended = h.unended;
    before_taken = (e, h.before_taken);
    refused = h.refused;
    left = h.left;
  }

  pub IsRefused-interrupted :
      (reads : List Received) (w last : W)
      → IsRefused reads w last
      → IsRefused (interrupted ∷ reads) w last
  IsRefused-interrupted reads w last h = record {
    before = interrupted ∷ h.before;
    first = h.first;
    bytes = h.bytes;
    after = h.after;
    split = ap (λ rest. interrupted ∷ rest) h.split;
    unended = h.unended;
    before_taken = h.before_taken;
    refused = h.refused;
    left = h.left;
  }

  -- The stream ended in some way, and all that it brought was written.
  abbrev pub IsWhole : End → List Received → W → W → Type 0
  IsWhole end reads w last = (end_of reads ≡ end) × AllTaken w reads × (last ≡ given w reads)

  -- The copy is whole, or it failed.
  unfoldable pub AllCopied : List Received → W → Option (W × Result PumpError (Unit {0})) → Type 0
  AllCopied reads w none = (end_of reads ≡ open_still) × AllTaken w reads
  AllCopied reads w (some (w', ok u)) = IsWhole at_end reads w w'
  AllCopied reads w (some (w', err copying)) = IsRefused reads w w' ⊎ IsWhole lost reads w w'
  AllCopied reads w (some (w', err half_close)) = ⊥

  copied_later :
      (b : ℕ) (bytes : List ℕ) (reads : List Received) (w : W)
      (r : Option (W × Result PumpError (Unit {0})))
      → (write_flush w (b ∷ bytes)).1 ≡ true
      → AllCopied reads (write_flush w (b ∷ bytes)).0 r
      → AllCopied (got (b ∷ bytes) ∷ reads) w r
  unfolding AllCopied
  copied_later b bytes reads w none e h = (h.0, (e, h.1))
  copied_later b bytes reads w (some (w', ok u)) e (end, all, last) = (end, (e, all), last)
  copied_later b bytes reads w (some (w', err copying)) e (inl h) =
      inl (IsRefused-later b bytes reads w w' e h)
  copied_later b bytes reads w (some (w', err copying)) e (inr (end, all, last)) =
      inr (end, (e, all), last)
  copied_later b bytes reads w (some (w', err half_close)) e h = h

  copied_interrupted :
      (reads : List Received) (w : W) (r : Option (W × Result PumpError (Unit {0})))
      → AllCopied reads w r
      → AllCopied (interrupted ∷ reads) w r
  unfolding AllCopied
  copied_interrupted reads w none h = h
  copied_interrupted reads w (some (w', ok u)) h = h
  copied_interrupted reads w (some (w', err copying)) (inl h) =
      inl (IsRefused-interrupted reads w w' h)
  copied_interrupted reads w (some (w', err copying)) (inr h) = inr h
  copied_interrupted reads w (some (w', err half_close)) h = h

  pub copy_flushing-AllCopied :
      (reads : List Received) (w : W) → AllCopied reads w (copy_flushing reads w)
  unfolding copy_flushing AllCopied
  copy_flushing-AllCopied [] w = (refl, tt)
  copy_flushing-AllCopied (got [] ∷ reads) w = (refl, tt, refl)
  copy_flushing-AllCopied (got (b ∷ bytes) ∷ reads) w =
      elim (Bool-cases (write_flush w (b ∷ bytes)).1) [
        | inl e ↦ rw e (
            copied_later b bytes reads w (copy_flushing reads (write_flush w (b ∷ bytes)).0) e
              (copy_flushing-AllCopied reads (write_flush w (b ∷ bytes)).0))
        | inr e ↦ rw e (inl (IsRefused-here b bytes reads w e))
      ]
  copy_flushing-AllCopied (interrupted ∷ reads) w =
      copied_interrupted reads w (copy_flushing reads w) (copy_flushing-AllCopied reads w)
  copy_flushing-AllCopied (broken ∷ reads) w = inr (refl, tt, refl)
