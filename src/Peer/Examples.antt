-- ===== src/Peer/Examples.antt =====
-- The policies of src/peer.rs on concrete connections.
use kunobi_daemon.Common.{ℕ, ◌≡◌, true, Option, some, [], ok, ◌↔◌}
use kunobi_daemon.Peer.{
  connection, Credentials, First, expected_process, same_user, add_tier, first, Authenticated,
}
use kunobi_daemon.Peer.Policies.{Picked, first_iff}

abbrev app : Credentials
app = record { pid = some 42; same_user = true; user_evidence = connection }

abbrev wanted : Option ℕ
wanted = some 42

abbrev socket : ℕ
socket = 7

abbrev accepted : Authenticated ℕ ℕ
accepted = record { connection = socket; grant = 2; credentials = app }

-- The whole view for process 42, a redacted one for this user.
abbrev views : First ℕ
views = add_tier (add_tier [] (expected_process (λ u. wanted)) 2) same_user 1

first_iff_example : (first views app ≡ ok 2) ↔ Picked views app 2
first_iff_example = first_iff views app 2
