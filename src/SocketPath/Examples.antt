-- ===== src/SocketPath/Examples.antt =====
-- A directory of src/socket_path.rs with two sockets, under a limit of ten bytes.
use kunobi_daemon.Common.{ℕ, ◌≡◌, refl, inl, some, List, [], ◌∷◌, ◌++◌, ok}
use kunobi_daemon.SocketPath.{check_longest, ends_slash, join, longest, path, slash, socket_dir}
use kunobi_daemon.SocketPath.Fits.{path-declared}

abbrev dir : List ℕ
dir = slash ∷ b't' ∷ []

abbrev sock : List ℕ
sock = b'd' ∷ b'.' ∷ b's' ∷ []

abbrev control : List ℕ
control = b'd' ∷ b'.' ∷ b'c' ∷ b't' ∷ b'l' ∷ []

fits : socket_dir (some 10) dir (sock ∷ control ∷ []) ≡ ok dir
unfolding socket_dir check_longest longest join ends_slash
fits = refl

path-declared_example : path (some 10) dir sock ≡ ok (dir ++ (slash ∷ sock))
unfolding join ends_slash
path-declared_example = path-declared (some 10) dir dir sock (sock ∷ control ∷ []) fits (inl refl)
