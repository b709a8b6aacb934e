-- ===== src/CommandLine/Examples.antt =====
-- Command lines of the tests of src/local/command_line.rs, and the round trip at one of them.
use kunobi_daemon.Common.{ℕ, ◌≡◌, refl, List, [], ◌∷◌, ok, err}
use Prim.Native.String.{String}
use Prim.Native.Char.{code}
use kunobi_daemon.CommandLine.{
  command_line, append_argument, append_arguments, append_unit, append_units, needs_quotes, program,
}
use kunobi_daemon.CommandLine.Reader.{split, stays_quoted, ends_quote, read_unit}
use kunobi_daemon.CommandLine.RoundTrip.{split-command_line}

-- The units of an ASCII text.
abbrev units : String → List ℕ
units String.[] = []
units (String.◌∷◌ c s) = code c ∷ units s

-- The argument is a\"b, and so is C:\my dir\.
abbrev tricky : List (List ℕ)
tricky = units "a\\\"b" ∷ units "C:\\my dir\\" ∷ units "" ∷ units "plain\\" ∷ []

tricky_line :
    command_line (units "p") tricky
    ≡ ok (units "\"p\" \"a\\\\\\\"b\" \"C:\\my dir\\\\\" \"\" plain\\")
unfolding command_line append_arguments append_argument append_units append_unit needs_quotes
tricky_line = refl

split-command_line_example :
    split ends_quote (units "\"p\" \"a\\\\\\\"b\" \"C:\\my dir\\\\\" \"\" plain\\")
    ≡ units "p" ∷ tricky
split-command_line_example = split-command_line ends_quote (units "p") tricky _ tricky_line

-- The two readings differ where a quoted region holds a doubled quote.
doubled_differ :
    (split stays_quoted (units "p \"a\"\"b c\"") ≡ units "p" ∷ units "a\"b c" ∷ [])
    × (split ends_quote (units "p \"a\"\"b c\"") ≡ units "p" ∷ units "a\"b" ∷ units "c" ∷ [])
unfolding split read_unit
doubled_differ = (refl, refl)

quoted_program : command_line (units "a\"b") [] ≡ err program
unfolding command_line
quoted_program = refl
