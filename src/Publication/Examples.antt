-- ===== src/Publication/Examples.antt =====
-- A slot of src/publication.rs at concrete contents.
use kunobi_daemon.Common.{ℕ, ◌≡◌, ◌≢◌, refl, true, false, none, some, List, [], ◌∷◌, ok}
use kunobi_daemon.Publication.{
  record_name, temporary, other, regular, Files, lookup, remove, put, rename, rename_found,
  same_name, default_options, never, at_sync, Published, next_free, free_number, publish_through,
  publish_numbered, publish,
}
use kunobi_daemon.Publication.Atomic.{IsAtomic, publish-IsAtomic}
use kunobi_daemon.Publication.Slot.{
  Turn, readable, read, matches_node, matches_opened, matches, published, replace, publish_unless,
  repair, remove_if_matches,
}
use kunobi_daemon.Publication.Slot.Owners.{replace-owned}

-- An old record, and a temporary file of process 9 that a crash has left.
abbrev directory : Files
directory =
    (temporary 9 0, regular 384 [])
    ∷ (record_name, regular 384 (1 ∷ 2 ∷ []))
    ∷ (other 5, regular 420 [])
    ∷ []

abbrev turn : Turn
turn = record {
  locked = true;
  access = readable;
  pid = 9;
  next = 0;
  fails = never;
  cleans = true;
  removes = true;
}

publish-IsAtomic_example :
    (n : ℕ) × (p : Published) × (publish default_options (3 ∷ []) 9 0 at_sync false directory
      ≡ some p)
    × (lookup (temporary 9 n) directory ≡ none)
    × IsAtomic directory (regular 384 (3 ∷ [])) (temporary 9 n) false p
publish-IsAtomic_example = publish-IsAtomic default_options (3 ∷ []) 9 0 at_sync false directory

abbrev replaced : Files
replaced =
    (record_name, regular 384 (3 ∷ []))
    ∷ (temporary 9 0, regular 384 [])
    ∷ (other 5, regular 420 [])
    ∷ []

replaced_so : replace default_options (3 ∷ []) turn directory ≡ some (replaced, ok tt)
unfolding replace published publish publish_numbered publish_through free_number next_free lookup
    same_name put remove rename rename_found
replaced_so = refl

replace-owned_example :
    (read default_options readable replaced ≡ ok (some (3 ∷ [])))
    × ((older : List ℕ) (t : Turn)
        → older ≢ 3 ∷ []
        → ((remove_if_matches older t replaced).0 ≡ replaced)
          × ((remove_if_matches older t replaced).1 ≢ ok true))
    × ((t : Turn)
        → t.locked ≡ true
        → t.access ≡ readable
        → t.removes ≡ true
        → remove_if_matches (3 ∷ []) t replaced ≡ (remove record_name replaced, ok true))
    × ((t : Turn)
        → t.access ≢ readable
        → ((remove_if_matches (3 ∷ []) t replaced).0 ≡ replaced)
          × ((remove_if_matches (3 ∷ []) t replaced).1 ≢ ok true))
replace-owned_example = replace-owned default_options (3 ∷ []) turn directory replaced replaced_so

repaired_so : repair default_options (3 ∷ []) turn directory ≡ some (replaced, ok true)
unfolding repair publish_unless matches matches_node matches_opened published publish
    publish_numbered publish_through free_number next_free lookup same_name put remove rename
    rename_found
repaired_so = refl
