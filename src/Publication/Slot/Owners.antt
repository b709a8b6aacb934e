-- ===== src/Publication/Slot/Owners.antt =====
-- What the users of one slot of src/publication.rs do to each other.
use kunobi_daemon.Common.{
  ℕ, ◌≡◌, ◌≢◌, refl, ap, ◌∙◌, Bool, true, false, none, some, List, Result, ok, err, if◌then◌else◌,
  if_either, ltb, length, same_bytes_refl, ◌⊎◌, inl, inr,
}
use kunobi_daemon.Publication.{
  Name, record_name, same_name, Failure, too_long, regular, Files, lookup, remove, RecordOptions,
}
use kunobi_daemon.Publication.Directory.{lookup-remove}
use kunobi_daemon.Publication.Slot.{
  readable, Turn, read_node, read, matches, replace, remove_tested, remove_if_matches,
}
use kunobi_daemon.Publication.Slot.Contents.{
  matches-other, matches-placed, matches_unread, read_node-regular, replace-ok,
}

-- A removal whose test does not find the record leaves the directory alone.
remove_tested-kept :
    (m : Result Failure Bool) (turn : Turn) (files : Files)
    → m ≢ ok true
    → ((remove_tested m turn files).0 ≡ files) × ((remove_tested m turn files).1 ≢ ok true)
unfolding remove_tested
remove_tested-kept (err e) turn files h = (refl, cc)
remove_tested-kept (ok false) turn files h = (refl, cc)
remove_tested-kept (ok true) turn files h = absurd (h refl)

remove_if_matches-kept :
    (wanted : List ℕ) (turn : Turn) (files : Files)
    → matches wanted turn.access files ≢ ok true
    → ((remove_if_matches wanted turn files).0 ≡ files)
      × ((remove_if_matches wanted turn files).1 ≢ ok true)
unfolding remove_if_matches
remove_if_matches-kept wanted turn files h =
    if_either (λ (r : Files × Result Failure Bool). (r.0 ≡ files) × (r.1 ≢ ok true)) turn.locked
      (λ l. remove_tested-kept (matches wanted turn.access files) turn files h) (λ l. (refl, cc))

-- Once a publication succeeds: reading the slot, if the record can be opened and read, gives what
-- was published, or refuses it as too long. An older owner, with another record, removes nothing and
-- is never told that it did, whatever fails. The owner's own removal, if it gets the lock, the record
-- can be opened and read and the file can be removed, removes it; and where the record cannot be
-- opened or read, it removes nothing and is not told that it did.
pub replace-owned :
    (options : RecordOptions) (contents : List ℕ) (turn : Turn) (files files' : Files)
    → replace options contents turn files ≡ some (files', ok tt)
    → (read options readable files'
        ≡ (if ltb options.read_limit (length contents) then err too_long else ok (some contents)))
      × ((older : List ℕ) (t : Turn)
          → older ≢ contents
          → ((remove_if_matches older t files').0 ≡ files')
            × ((remove_if_matches older t files').1 ≢ ok true))
      × ((t : Turn)
          → t.locked ≡ true
          → t.access ≡ readable
          → t.removes ≡ true
          → remove_if_matches contents t files' ≡ (remove record_name files', ok true))
      × ((t : Turn)
          → t.access ≢ readable
          → ((remove_if_matches contents t files').0 ≡ files')
            × ((remove_if_matches contents t files').1 ≢ ok true))
unfolding read
replace-owned options contents turn files files' h =
    let placed = replace-ok options contents turn files files' h in
    (
      ap (read_node options.read_limit readable) placed
          ∙ read_node-regular options.read_limit options.mode contents,
      λ older t d.
          remove_if_matches-kept older t files'
            (matches-other older contents t.access options.mode files' placed d),
      λ t l a r. removes t l a r placed,
      λ t a.
          remove_if_matches-kept contents t files' (λ e.
            unfold matches in matches_unread contents t.access (lookup record_name files') a e),
    )
  where
    removes :
        (t : Turn)
        → t.locked ≡ true
        → t.access ≡ readable
        → t.removes ≡ true
        → lookup record_name files' ≡ some (regular options.mode contents)
        → remove_if_matches contents t files' ≡ (remove record_name files', ok true)
    removes t l a r placed =
        unfold remove_if_matches remove_tested in
        rw
          (
            l,
            a,
            matches-placed contents contents options.mode files' placed,
            same_bytes_refl contents,
            r,
          )
          refl

-- A conditional removal reports that it removed only if the record was there and was exactly the
-- caller's; then its name is free, and every other name is as before. Otherwise it left the
-- directory alone.
pub remove_if_matches-owned :
    (contents : List ℕ) (turn : Turn) (files : Files)
    → let (after, result) = remove_if_matches contents turn files in
      ((result ≡ ok true)
        × (matches contents turn.access files ≡ ok true)
        × ((name : Name)
            → lookup name after ≡ (if same_name name record_name then none else lookup name files)))
      ⊎ ((result ≢ ok true) × (after ≡ files))
unfolding remove_if_matches remove_tested
remove_if_matches-owned contents turn files =
    if_either Says turn.locked (λ l. tested (matches contents turn.access files) refl)
      (λ l. inr (cc, refl))
  where
    Says : Files × Result Failure Bool → Type 0
    Says r =
        ((r.1 ≡ ok true)
          × (matches contents turn.access files ≡ ok true)
          × ((name : Name)
              → lookup name r.0 ≡ (if same_name name record_name then none else lookup name files)))
        ⊎ ((r.1 ≢ ok true) × (r.0 ≡ files))

    tested :
        (m : Result Failure Bool)
        → matches contents turn.access files ≡ m
        → Says (remove_tested m turn files)
    tested (err failure) e = inr (cc, refl)
    tested (ok false) e = inr (cc, refl)
    tested (ok true) e =
        if_either Says turn.removes
          (λ r. inl (refl, e, λ name. lookup-remove name record_name files)) (λ r. inr (cc, refl))
