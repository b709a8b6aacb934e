-- ===== src/Transport.antt =====
-- src/transport.rs: the blocking transport. This file is the contract of a writer, and the keys of
-- requests.
pub mod Outstanding
pub mod Pump
pub mod Writer
mod Examples
use kunobi_daemon.Common.{ℕ, Bool, true, ◌≡◌, ◌↔◌, List}

-- `K: Ord`, as far as the tracked set uses it.
pub record Key (K : Type 0) : Type 0 where
  pub same : K → K → Bool
  pub same_iff : (a b : K) → (same a b ≡ true) ↔ (a ≡ b)

-- `WriteHalf`, with what it takes from `Write`. Each operation gives the writer that it leaves, and
-- whether it succeeded.
pub record WriteHalf (W : Type 0) : Type 0 where
  pub write_all : W → List ℕ → W × Bool
  pub flush : W → W × Bool
  pub shutdown_write : W → W × Bool
