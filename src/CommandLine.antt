-- ===== src/CommandLine.antt =====
-- src/local/command_line.rs: the command line that a Windows process is started with.
-- A code unit is a number; the texts are lists of UTF-16 units.
pub mod Reader
pub mod Escape
pub mod Rereading
pub mod RoundTrip
mod Examples
use kunobi_daemon.Common.{
  ◌||◌, ℕ, ◌+◌, ◌*◌, Bool, true, false, not, List, [], ◌∷◌, ◌++◌, Result, ok, err, replicate, ◌==◌,
  if◌then◌else◌,
}

abbrev pub quote : ℕ
quote = b'"'

abbrev pub backslash : ℕ
backslash = 0x5c

abbrev pub space : ℕ
space = 0x20

-- The two messages of `invalid`.
pub data Invalid : Type 0 where
  program nul : Invalid

abbrev pub contains : ℕ → List ℕ → Bool
contains u [] = false
contains u (v ∷ vs) = v == u || contains u vs

abbrev pub any_contains : ℕ → List (List ℕ) → Bool
any_contains u [] = false
any_contains u (a ∷ args) = contains u a || any_contains u args

abbrev pub is_empty : List ℕ → Bool
is_empty [] = true
is_empty (_ ∷ _) = false

-- The units that end or start a word, and the quote.
abbrev pub is_special : ℕ → Bool
is_special u = u == 0x20 || u == 0x09 || u == 0x0a || u == 0x0b || u == quote

abbrev pub any_special : List ℕ → Bool
any_special [] = false
any_special (u ∷ us) = is_special u || any_special us

unfoldable pub needs_quotes : List ℕ → Bool
needs_quotes arg = is_empty arg || any_special arg

-- One unit of the loop in `append_argument`: the line and the backslashes not yet written.
unfoldable pub append_unit : List ℕ × ℕ → ℕ → List ℕ × ℕ
append_unit (line, backslashes) unit =
    if unit == backslash
    then (line, backslashes + 1)
    else if unit == quote
    then ((line ++ replicate (backslashes * 2 + 1) backslash) ++ unit ∷ [], 0)
    else ((line ++ replicate backslashes backslash) ++ unit ∷ [], 0)

unfoldable pub append_units : List ℕ × ℕ → List ℕ → List ℕ × ℕ
append_units s [] = s
append_units s (unit ∷ units) = append_units (append_unit s unit) units

unfoldable pub append_argument : List ℕ → List ℕ → List ℕ
append_argument line arg =
    if not (needs_quotes arg)
    then line ++ arg
    else (let (line', backslashes) = append_units (line ++ quote ∷ [], 0) arg in
        (line' ++ replicate (backslashes * 2) backslash) ++ quote ∷ [])

unfoldable pub append_arguments : List ℕ → List (List ℕ) → List ℕ
append_arguments line [] = line
append_arguments line (arg ∷ args) =
    append_arguments (append_argument (line ++ space ∷ []) arg) args

unfoldable pub command_line : List ℕ → List (List ℕ) → Result Invalid (List ℕ)
command_line path args =
    if is_empty path || contains quote path
    then err program
    else if contains 0 path || any_contains 0 args
    then err nul
    else ok (append_arguments ((quote ∷ path) ++ quote ∷ []) args)
