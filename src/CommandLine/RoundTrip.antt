-- ===== src/CommandLine/RoundTrip.antt =====
-- The command line of src/local/command_line.rs is read back as it was given.
use kunobi_daemon.Common.{
  ℕ, ◌≡◌, refl, ◌∙◌, true, false, List, [], ◌∷◌, ◌++◌, arith, ok, ◌==◌, if◌then◌else◌,
}
use mathlib.Core.List.{append_assoc, append-nil}
use kunobi_daemon.CommandLine.{
  quote, space, contains, needs_quotes, append_argument, append_arguments, command_line,
}
use kunobi_daemon.CommandLine.Escape.{escape, append_argument-escape}
use kunobi_daemon.CommandLine.Reader.{
  DoubledQuote, in_program, Reader, read_unit, read, finish, split, read-append,
}
use kunobi_daemon.CommandLine.Rereading.{Closes, read_argument}

module _ (doubled : DoubledQuote) where
  abbrev start : Reader
  start = record { words = []; word = []; phase = in_program false }

  path_unit :
      (w : List ℕ) (u : ℕ)
      → (u == quote) ≡ false
      → read_unit doubled (record { words = []; word = w; phase = in_program true }) u
        ≡ record { words = []; word = w ++ u ∷ []; phase = in_program true }
  unfolding read_unit
  path_unit w u h = ground arith

  read_path :
      (w path : List ℕ)
      → contains quote path ≡ false
      → read doubled (record { words = []; word = w; phase = in_program true }) path
        ≡ record { words = []; word = w ++ path; phase = in_program true }
  unfolding read
  read_path w [] h = simp append-nil
  read_path w (u ∷ us) h =
      let here : (u == quote) ≡ false = ground arith in
      let later : contains quote us ≡ false = ground arith in
      rw (path_unit w u here) (read_path (w ++ u ∷ []) us later ∙ simp append_assoc)

  read_program :
      (path : List ℕ)
      → contains quote path ≡ false
      → Closes doubled (read doubled start ((quote ∷ path) ++ quote ∷ [])) (path ∷ [])
  unfolding read read_unit finish
  read_program path h =
      rw
        (
          read-append doubled (record { words = []; word = []; phase = in_program true }) path
              (quote ∷ []),
          read_path [] path h,
        )
        (record { by_space = refl; by_end = refl })

  read_arguments :
      (args : List (List ℕ)) (line : List ℕ) (ws : List (List ℕ))
      → Closes doubled (read doubled start line) ws
      → Closes doubled (read doubled start (append_arguments line args)) (ws ++ args)
  unfolding append_arguments
  read_arguments [] line ws c = rw append-nil c
  read_arguments (arg ∷ args) line ws c = rw (← append_assoc ws (arg ∷ []) args) (
      read_arguments args (append_argument (line ++ space ∷ []) arg) (ws ++ arg ∷ []) (
        rw
          (
            append_argument-escape (line ++ space ∷ []) arg,
            read-append doubled start (line ++ space ∷ [])
                (if needs_quotes arg then quote ∷ escape 0 arg else arg),
            read-append doubled start line (space ∷ []),
          )
          (unfold read in rw c.by_space (read_argument doubled ws arg))))

  built :
      (path : List ℕ) (args : List (List ℕ)) (line : List ℕ)
      → command_line path args ≡ ok line
      → (contains quote path ≡ false)
        × (line ≡ append_arguments ((quote ∷ path) ++ quote ∷ []) args)
  unfolding command_line
  built path args line e = ground arith

  -- Whatever the program and the arguments, a command line that is built is split back into
  -- exactly the program and the arguments, under either reading of a doubled quote.
  pub split-command_line :
      (path : List ℕ) (args : List (List ℕ)) (line : List ℕ)
      → command_line path args ≡ ok line
      → split doubled line ≡ path ∷ args
  unfolding split
  split-command_line path args line e =
      let (clean, shape) = built path args line e in
      rw shape
        (read_arguments args ((quote ∷ path) ++ quote ∷ []) (path ∷ [])
          (read_program path clean)).by_end
