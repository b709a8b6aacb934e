-- ===== src/Transport/Pump.antt =====
-- The pumps of src/transport.rs, on what the reads of one direction give. `none`: the pump is still
-- reading.
pub mod Refused
pub mod Delivered
use kunobi_daemon.Common.{ℕ, Option, none, some, List, [], ◌∷◌, Result, ok, err, if◌then◌else◌}
use kunobi_daemon.Transport.{WriteHalf}
use kunobi_daemon.Transport.Writer.{write_flush}

-- What a read gives; `Ok(0)` is `got []`.
pub data Received : Type 0 where
  got : List ℕ → Received
  interrupted broken : Received

pub data PumpExit : Type 0 where
  peer_closed client_gone : PumpExit

pub data PumpError : Type 0 where
  copying half_close : PumpError

module _ {W : Type 0} ⦃io : WriteHalf W⦄ where
  unfoldable pub copy_flushing : List Received → W → Option (W × Result PumpError (Unit {0}))
  copy_flushing [] w = none
  copy_flushing (got [] ∷ reads) w = some (w, ok tt)
  copy_flushing (got (b ∷ bytes) ∷ reads) w =
      let sent = write_flush w (b ∷ bytes) in
      let rest = copy_flushing reads sent.0 in if sent.1 then rest else some (sent.0, err copying)
  copy_flushing (interrupted ∷ reads) w = copy_flushing reads w
  copy_flushing (broken ∷ reads) w = some (w, err copying)

  -- `result.and(shutdown)`
  unfoldable pub half_closed : W × Result PumpError (Unit {0}) → W × Result PumpError (Unit {0})
  half_closed (w, err e) = ((io.shutdown_write w).0, err e)
  half_closed (w, ok u) =
      ((io.shutdown_write w).0, if (io.shutdown_write w).1 then ok tt else err half_close)

  unfoldable pub pump_upstream : List Received → W → Option (W × Result PumpError (Unit {0}))
  pump_upstream reads w = elim (copy_flushing reads w) [
    | none ↦ none
    | some copied ↦ some (half_closed copied)
  ]

  unfoldable pub pump_downstream : List Received → W → Option (W × PumpExit)
  pump_downstream [] w = none
  pump_downstream (got [] ∷ reads) w =
      let flushed = io.flush w in some (flushed.0, if flushed.1 then peer_closed else client_gone)
  pump_downstream (got (b ∷ bytes) ∷ reads) w =
      let sent = write_flush w (b ∷ bytes) in
      let rest = pump_downstream reads sent.0 in if sent.1 then rest else some (sent.0, client_gone)
  pump_downstream (interrupted ∷ reads) w = pump_downstream reads w
  pump_downstream (broken ∷ reads) w = some (w, peer_closed)
