-- ===== src/Publication/Slot.antt =====
-- `RecordSlot` of src/publication.rs: publications and conditional removals under the slot's lock.
-- `none` as in `publish`, which never gives it.
pub mod Contents
pub mod Owners
pub mod Repairs
use kunobi_daemon.Common.{
  ℕ, ◌+◌, Bool, true, false, Option, none, some, List, Result, ok, err, ◌>>=◌, if◌then◌else◌, ltb,
  length, take, same_bytes,
}
use kunobi_daemon.Publication.{
  record_name, Failure, opening, reading, not_regular, too_long, timed_out, removing, Node, regular,
  irregular, Files, lookup, remove, RecordOptions, Fails, Published, publish,
}

-- Whether what the record's name names can be opened and read: the opening fails (other than that
-- there is nothing, or the file's metadata cannot be had), or a read of the open file does.
pub data Access : Type 0 where
  readable unopenable unreadable : Access

-- One turn on a slot: whether the lock was acquired in its 2 s, whether the record can be read, the
-- process with its counter, the call of a publication that fails, if one does, whether its temporary
-- file can be removed, and whether the record can.
pub record Turn : Type 0 where
  pub locked : Bool
  pub access : Access
  pub pid : ℕ
  pub next : ℕ
  pub fails : Fails
  pub cleans : Bool
  pub removes : Bool

-- `read_regular`, on what the record's name names.
unfoldable pub read_node : ℕ → Access → Option Node → Result Failure (Option (List ℕ))
read_node limit unopenable found = err opening
read_node limit readable none = ok none
read_node limit unreadable none = ok none
read_node limit readable (some (irregular r)) = err not_regular
read_node limit unreadable (some (irregular r)) = err not_regular
read_node limit unreadable (some (regular mode bytes)) = err reading
read_node limit readable (some (regular mode bytes)) =
    let contents = take (limit + 1) bytes in
    if ltb limit (length contents) then err too_long else ok (some contents)

unfoldable pub read : RecordOptions → Access → Files → Result Failure (Option (List ℕ))
read options access files = read_node options.read_limit access (lookup record_name files)

-- `matches`, which follows a link.
unfoldable pub matches_opened : List ℕ → Access → List ℕ → Result Failure Bool
matches_opened contents unopenable bytes = err opening
matches_opened contents unreadable bytes = err reading
matches_opened contents readable bytes = ok (same_bytes (take (length contents + 1) bytes) contents)

unfoldable pub matches_behind :
    List ℕ → Access → Result Failure (Option (List ℕ)) → Result Failure Bool
matches_behind contents access (err e) = err e
matches_behind contents access (ok none) = ok false
matches_behind contents access (ok (some bytes)) = matches_opened contents access bytes

unfoldable pub matches_node : List ℕ → Access → Option Node → Result Failure Bool
matches_node contents unopenable found = err opening
matches_node contents readable none = ok false
matches_node contents unreadable none = ok false
matches_node contents readable (some (regular mode bytes)) = matches_opened contents readable bytes
matches_node contents unreadable (some (regular mode bytes)) =
    matches_opened contents unreadable bytes
matches_node contents readable (some (irregular r)) = matches_behind contents readable r
matches_node contents unreadable (some (irregular r)) = matches_behind contents unreadable r

unfoldable pub matches : List ℕ → Access → Files → Result Failure Bool
matches contents access files = matches_node contents access (lookup record_name files)

-- What a publication that was asked for returns.
unfoldable pub published : {A : Type 0} → A → Option Published → Option (Files × Result Failure A)
published a none = none
published a (some p) = some (p.files, p.result >>= λ u. ok a)

unfoldable pub replace :
    RecordOptions → List ℕ → Turn → Files → Option (Files × Result Failure (Unit {0}))
replace options contents turn files =
    if turn.locked
    then published tt (publish options contents turn.pid turn.next turn.fails turn.cleans files)
    else some (files, err timed_out)

-- The publication of a conditional operation, by its test.
unfoldable pub publish_unless :
    Result Failure Bool
    → RecordOptions
    → List ℕ
    → Turn
    → Files
    → Option (Files × Result Failure Bool)
publish_unless (err e) options contents turn files = some (files, err e)
publish_unless (ok true) options contents turn files = some (files, ok false)
publish_unless (ok false) options contents turn files =
    published true (publish options contents turn.pid turn.next turn.fails turn.cleans files)

unfoldable pub repair : RecordOptions → List ℕ → Turn → Files → Option (Files × Result Failure Bool)
repair options contents turn files =
    if turn.locked
    then publish_unless (matches contents turn.access files) options contents turn files
    else some (files, err timed_out)

abbrev refuses : (Option (List ℕ) → Bool) → Option (List ℕ) → Bool
refuses accepts current = if accepts current then false else true

unfoldable pub replace_if :
    RecordOptions
    → List ℕ
    → (Option (List ℕ) → Bool)
    → Turn
    → Files
    → Option (Files × Result Failure Bool)
replace_if options contents accepts turn files =
    if turn.locked
    then publish_unless (read options turn.access files >>= λ current. ok (refuses accepts current))
        options contents turn files
    else some (files, err timed_out)

-- The removal of a conditional operation, by its test.
unfoldable pub remove_tested : Result Failure Bool → Turn → Files → Files × Result Failure Bool
remove_tested (err e) turn files = (files, err e)
remove_tested (ok false) turn files = (files, ok false)
remove_tested (ok true) turn files =
    if turn.removes then (remove record_name files, ok true) else (files, err removing)

unfoldable pub remove_if_matches : List ℕ → Turn → Files → Files × Result Failure Bool
remove_if_matches contents turn files =
    if turn.locked
    then remove_tested (matches contents turn.access files) turn files
    else (files, err timed_out)

abbrev accepted : (List ℕ → Bool) → Option (List ℕ) → Bool
accepted accepts none = false
accepted accepts (some current) = accepts current

unfoldable pub remove_if :
    RecordOptions → (List ℕ → Bool) → Turn → Files → Files × Result Failure Bool
remove_if options accepts turn files =
    if turn.locked
    then remove_tested (read options turn.access files >>= λ current. ok (accepted accepts current))
        turn files
    else (files, err timed_out)
