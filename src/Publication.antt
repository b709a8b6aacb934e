-- ===== src/Publication.antt =====
-- src/publication.rs on Unix: discovery records that are replaced in one step, and the slot whose
-- users share a lock. The application's directory is a list of names with what they name; the calls
-- of the operating system that can fail say so in `Calls`.
pub mod Atomic
pub mod Directory
pub mod Numbers
pub mod Renaming
pub mod Slot
mod Examples
use kunobi_daemon.Common.{
  ℕ, zero, suc, ◌+◌, Bool, true, false, ◌&&◌, Option, none, some, List, [], ◌∷◌, Result, ok, err,
  ◌==◌, if◌then◌else◌, length,
}

-- The record of a slot; a temporary file of a process, with its number; and every other name.
pub data Name : Type 0 where
  record_name : Name
  temporary : (pid number : ℕ) → Name
  other : ℕ → Name

pub data Failure : Type 0 where
  opening permissions writing syncing renaming directory reading removing : Failure
  not_regular too_long timed_out : Failure

-- A regular file with its mode; or a link, a directory or a device, with what reading through it
-- gives, or nothing where a link leads nowhere.
pub data Node : Type 0 where
  regular : (mode : ℕ) → List ℕ → Node
  irregular : Result Failure (Option (List ℕ)) → Node

abbrev pub Files : Type 0
Files = List (Name × Node)

unfoldable pub same_name : Name → Name → Bool
same_name record_name record_name = true
same_name (temporary pid n) (temporary pid' n') = pid == pid' && n == n'
same_name (other n) (other n') = n == n'
same_name _ _ = false

unfoldable pub lookup : Name → Files → Option Node
lookup name [] = none
lookup name ((other_name, node) ∷ files) =
    if same_name name other_name then some node else lookup name files

unfoldable pub remove : Name → Files → Files
remove name [] = []
remove name ((other_name, node) ∷ files) =
    let rest = remove name files in
    if same_name name other_name then rest else (other_name, node) ∷ rest

unfoldable pub put : Name → Node → Files → Files
put name node files = (name, node) ∷ remove name files

-- `rename`, by what is found at the first name.
unfoldable pub rename_found : Option Node → Name → Name → Files → Files
rename_found none from to files = files
rename_found (some node) from to files = put to node (remove from files)

unfoldable pub rename : Name → Name → Files → Files
rename from to files = rename_found (lookup from files) from to files

pub record RecordOptions : Type 0 where
  pub durable : Bool
  pub mode : ℕ
  pub read_limit : ℕ

-- `RecordOptions::new`: mode 0600, 64 KiB.
abbrev pub default_options : RecordOptions
default_options = record { durable = false; mode = 384; read_limit = 65_536 }

-- Which call of a publication fails, if one does; a failed write may have written a part.
pub data Fails : Type 0 where
  never at_open at_permissions at_sync at_rename at_directory : Fails
  at_write : List ℕ → Fails

-- A number is taken while its name is in use.
unfoldable pub next_free : Option Node → ℕ → Option ℕ → Option ℕ
next_free none next rest = some next
next_free (some node) next rest = rest

-- The loop over the process's counter `NEXT`; `none` when the fuel is out.
unfoldable pub free_number : ℕ → ℕ → ℕ → Files → Option ℕ
free_number zero pid next files = none
free_number (suc fuel) pid next files =
    next_free (lookup (temporary pid next) files) next (free_number fuel pid (next + 1) files)

-- The directory at the end of a publication, at each moment before that, and what is returned.
pub record Published : Type 0 where
  pub files : Files
  pub seen : List Files
  pub result : Result Failure (Unit {0})

-- `Temporary::drop`, which ignores that the file cannot be removed.
abbrev pub dropped : Bool → Name → Files → Files
dropped removes temp files = if removes then remove temp files else files

-- The temporary file is dropped on an error.
abbrev pub abandoned : Bool → Name → List Files → Files → Failure → Published
abandoned removes temp seen files failure = record {
  files = dropped removes temp files;
  seen = files ∷ seen;
  result = err failure;
}

-- From the exclusive creation on. The last test: a temporary file can be removed.
unfoldable pub publish_through : RecordOptions → List ℕ → Name → Fails → Bool → Files → Published
publish_through options contents temp fails removes files =
    let created = put temp (regular 384 []) files in
    let chosen = put temp (regular options.mode []) files in
    let written = put temp (regular options.mode contents) files in
    let renamed = dropped removes temp (rename temp record_name written) in
    let before = chosen ∷ created ∷ files ∷ [] in
    elim fails [
      | at_open ↦ record { files = files; seen = []; result = err opening }
      | at_permissions ↦ abandoned removes temp (files ∷ []) created permissions
      | at_write part ↦
          abandoned removes temp before (put temp (regular options.mode part) files) writing
      | at_sync ↦ abandoned removes temp before written syncing
      | at_rename ↦ abandoned removes temp before written renaming
      | at_directory ↦
          if options.durable
          then record {
            files = renamed;
            seen = rename temp record_name written ∷ written ∷ before;
            result = err directory;
          }
          else record {
            files = renamed;
            seen = rename temp record_name written ∷ written ∷ before;
            result = ok tt;
          }
      | never ↦ record {
        files = renamed;
        seen = rename temp record_name written ∷ written ∷ before;
        result = ok tt;
      }
    ]

unfoldable pub publish_numbered :
    Option ℕ → RecordOptions → List ℕ → ℕ → Fails → Bool → Files → Option Published
publish_numbered none options contents pid fails removes files = none
publish_numbered (some number) options contents pid fails removes files =
    some (publish_through options contents (temporary pid number) fails removes files)

-- `publish_record_with`; with the counter's first value. `none` when the fuel is out.
unfoldable pub publish :
    RecordOptions → List ℕ → (pid next : ℕ) → Fails → Bool → Files → Option Published
publish options contents pid next fails removes files =
    publish_numbered (free_number (length files + 1) pid next files) options contents pid fails
      removes files
