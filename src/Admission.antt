-- ===== src/Admission.antt =====
-- src/admission.rs: three independent budgets of permits. An atomic update is one step here.
pub mod Budgets
mod Examples
use kunobi_daemon.Common.{ℕ, ◌+◌, ◌%◌, Option, none, some, ltb, if◌then◌else◌}
use kunobi_daemon.Common.Words.{u64_max}

pub data Pool : Type 0 where
  handshake application control : Pool

pub record Limits : Type 0 where
  pub handshakes : ℕ
  pub application : ℕ
  pub control : ℕ

pub record PoolSnapshot : Type 0 where
  pub limit : ℕ
  pub active : ℕ
  pub rejected : ℕ

pub record Capacity : Type 0 where
  pub limit : ℕ
  pub active : ℕ
  pub rejected : ℕ

-- The array of the three pools, in the order of `Pool`.
pub record Admission : Type 0 where
  pub handshakes : Capacity
  pub application : Capacity
  pub control : Capacity

abbrev empty : ℕ → Capacity
empty limit = record { limit = limit; active = 0; rejected = 0 }

unfoldable pub new : Limits → Admission
new limits = record {
  handshakes = empty limits.handshakes;
  application = empty limits.application;
  control = empty limits.control;
}

abbrev pub capacity : Admission → Pool → Capacity
capacity a handshake = a.handshakes
capacity a Pool.application = a.application
capacity a Pool.control = a.control

abbrev update : Admission → Pool → (Capacity → Capacity) → Admission
update a handshake f = record a { handshakes = f a.handshakes }
update a Pool.application f = record a { application = f a.application }
update a Pool.control f = record a { control = f a.control }

-- `fetch_add` on an `AtomicU64` and `fetch_sub` on an `AtomicUsize` wrap.
abbrev count_up : ℕ → ℕ
count_up n = (n + 1) % (u64_max + 1)

abbrev count_down : ℕ → ℕ
count_down n = (n + u64_max) % (u64_max + 1)

-- A permit names its pool.
unfoldable pub try_acquire : Admission → Pool → Admission × Option Pool
try_acquire a pool =
    let c : Capacity = capacity a pool in
    if ltb c.active c.limit
    then (update a pool (λ d. record d { active = d.active + 1 }), some pool)
    else (update a pool (λ d. record d { rejected = count_up d.rejected }), none)

-- `Drop for Permit`.
unfoldable pub release : Admission → Pool → Admission
release a pool = update a pool (λ d. record d { active = count_down d.active })

unfoldable pub snapshot : Admission → Pool → PoolSnapshot
snapshot a pool =
    let c : Capacity = capacity a pool in
    record { limit = c.limit; active = c.active; rejected = c.rejected }
