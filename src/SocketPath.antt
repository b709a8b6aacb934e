-- ===== src/SocketPath.antt =====
-- src/socket_path.rs: socket names and directories that are checked where they are chosen. Paths
-- and names are lists of bytes, and the limit is the platform's; `none`: there is no limit.
pub mod Fits
mod Examples
use kunobi_daemon.Common.{
  ◌||◌, ℕ, ◌+◌, ◌-◌, Bool, true, false, Option, none, some, List, [], ◌∷◌, ◌++◌, Result, ok, err,
  ◌>>=◌, ltb, leb, ◌==◌, if◌then◌else◌, length, same_bytes, max,
}

abbrev pub max_name_bytes : ℕ
max_name_bytes = 48

abbrev pub slash : ℕ
slash = b'/'

abbrev pub dot : ℕ
dot = b'.'

unfoldable pub has_separator : List ℕ → Bool
has_separator [] = false
has_separator (b ∷ bytes) =
    b == slash || (b == 92 || (b == b':' || (b == 0 || has_separator bytes)))

abbrev is_nothing : List ℕ → Bool
is_nothing [] = true
is_nothing (_ ∷ _) = false

-- `SocketName::new`; `none` is a failed assertion.
unfoldable pub socket_name : List ℕ → Option (List ℕ)
socket_name name =
    if is_nothing name
      || (ltb max_name_bytes (length name)
          || (same_bytes name (dot ∷ [])
              || (same_bytes name (dot ∷ dot ∷ []) || has_separator name)))
    then none
    else some name

unfoldable pub ends_slash : List ℕ → Bool
ends_slash [] = true
ends_slash (b ∷ []) = b == slash
ends_slash (b ∷ c ∷ bytes) = ends_slash (c ∷ bytes)

-- `Path::join` with a name that has no separator.
unfoldable pub join : List ℕ → List ℕ → List ℕ
join dir name = if ends_slash dir then dir ++ name else dir ++ (slash ∷ name)

pub data TooLong : Type 0 where
  too_long : (bytes limit : ℕ) → TooLong

unfoldable pub check_socket_path : Option ℕ → List ℕ → Result TooLong (Unit {0})
check_socket_path none socket = ok tt
check_socket_path (some limit) socket =
    if ltb limit (length socket) then err (too_long (length socket) limit) else ok tt

abbrev pub longest_bytes : List (List ℕ) → ℕ
longest_bytes [] = 0
longest_bytes (name ∷ names) = max (length name) (longest_bytes names)

unfoldable pub max_dir_bytes : Option ℕ → List (List ℕ) → Option ℕ
max_dir_bytes none names = none
max_dir_bytes (some limit) names = some (limit - (longest_bytes names + 1))

abbrev longer : List ℕ → Option (List ℕ) → List ℕ
longer name none = name
longer name (some other) = if leb (length name) (length other) then other else name

-- `max_by_key`, which gives the last one of the longest.
unfoldable pub longest : List (List ℕ) → Option (List ℕ)
longest [] = none
longest (name ∷ names) = some (longer name (longest names))

-- The check of `SocketDir::new`, by the longest name.
unfoldable pub check_longest : Option ℕ → List ℕ → Option (List ℕ) → Result TooLong (Unit {0})
check_longest none dir name = ok tt
check_longest (some limit) dir none = ok tt
check_longest (some limit) dir (some name) =
    if ltb limit (length (join dir name))
    then err (too_long (length (join dir name)) limit)
    else ok tt

-- `SocketDir::new`, which keeps the directory.
unfoldable pub socket_dir : Option ℕ → List ℕ → List (List ℕ) → Result TooLong (List ℕ)
socket_dir limit dir names = do _ ← check_longest limit dir (longest names); ok dir

-- `SocketDir::path`.
unfoldable pub path : Option ℕ → List ℕ → List ℕ → Result TooLong (List ℕ)
path limit dir name = do _ ← check_socket_path limit (join dir name); ok (join dir name)
