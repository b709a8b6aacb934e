-- ===== src/CommandLine/Reader.antt =====
-- How a started program reads its command line back, unit by unit: the loader's rule for the
-- program and the C runtime's for the arguments, as the reference split in the tests of
-- src/local/command_line.rs has them.
use kunobi_daemon.Common.{
  ◌||◌, ℕ, ◌+◌, ◌/◌, ◌%◌, ◌≡◌, refl, Bool, true, false, ◌&&◌, not, List, [], ◌∷◌, ◌++◌, replicate,
  ◌==◌, if◌then◌else◌,
}
use kunobi_daemon.CommandLine.{quote, backslash}

-- Splitters disagree on a doubled quote in a quoted region: one quote that leaves the region
-- open, or one that ends it.
pub data DoubledQuote : Type 0 where
  stays_quoted ends_quote : DoubledQuote

abbrev pub is_stay : DoubledQuote → Bool
is_stay stays_quoted = true
is_stay ends_quote = false

-- In an argument: the backslashes read and not yet understood, whether a region is quoted, and
-- whether its closing quote was the unit before.
pub data Phase : Type 0 where
  in_program : Bool → Phase
  between : Phase
  in_word : ℕ → Bool → Bool → Phase

pub record Reader : Type 0 where
  pub words : List (List ℕ)
  pub word : List ℕ
  pub phase : Phase

abbrev pub is_blank : ℕ → Bool
is_blank u = u == 0x20 || u == 0x09

abbrev is_odd : ℕ → Bool
is_odd k = k % 2 == 1

abbrev complete : Reader → List ℕ → Reader
complete r w = record { words = r.words ++ w ∷ []; word = []; phase = between }

abbrev pushes : Reader → List ℕ → Phase → Reader
pushes r us p = record { words = r.words; word = r.word ++ us; phase = p }

read_quote : ℕ → Bool → Reader → Reader
read_quote k quoted r =
    if is_odd k
    then pushes r (replicate (k / 2) backslash ++ quote ∷ []) (in_word 0 quoted false)
    else pushes r (replicate (k / 2) backslash) (in_word 0 true quoted)

read_word : ℕ → Bool → ℕ → Reader → Reader
unfolding read_quote
read_word k quoted u r =
    if u == backslash
    then record r { phase = in_word (k + 1) quoted false }
    else if u == quote
    then read_quote k quoted r
    else if is_blank u && not quoted
    then complete r (r.word ++ replicate k backslash)
    else pushes r (replicate k backslash ++ u ∷ []) (in_word 0 quoted false)

read_phase : DoubledQuote → Phase → ℕ → Reader → Reader
unfolding read_word
read_phase doubled (in_program quoted) u r =
    if is_blank u && not quoted
    then complete r r.word
    else if u == quote
    then record r { phase = in_program (not quoted) }
    else pushes r (u ∷ []) (in_program quoted)
read_phase doubled between u r = if is_blank u then r else read_word 0 false u r
read_phase doubled (in_word k quoted true) u r =
    if u == quote
    then pushes r (quote ∷ []) (in_word 0 (is_stay doubled) false)
    else read_word k false u r
read_phase doubled (in_word k quoted false) u r = read_word k quoted u r

unfoldable pub read_unit : DoubledQuote → Reader → ℕ → Reader
unfolding read_phase
read_unit doubled r u = read_phase doubled r.phase u r

unfoldable pub read : DoubledQuote → Reader → List ℕ → Reader
read doubled r [] = r
read doubled r (u ∷ us) = read doubled (read_unit doubled r u) us

finish_phase : Phase → Reader → List (List ℕ)
finish_phase (in_program _) r = r.words ++ r.word ∷ []
finish_phase between r = r.words
finish_phase (in_word k _ _) r = r.words ++ (r.word ++ replicate k backslash) ∷ []

unfoldable pub finish : Reader → List (List ℕ)
unfolding finish_phase
finish r = finish_phase r.phase r

unfoldable pub split : DoubledQuote → List ℕ → List (List ℕ)
unfolding read finish
split doubled line =
    finish (read doubled (record { words = []; word = []; phase = in_program false }) line)

pub read-append :
    (doubled : DoubledQuote) (r : Reader) (us vs : List ℕ)
    → read doubled r (us ++ vs) ≡ read doubled (read doubled r us) vs
unfolding read
read-append doubled r [] vs = refl
read-append doubled r (u ∷ us) vs = read-append doubled (read_unit doubled r u) us vs
