-- ===== src/Publication/Renaming.antt =====
-- The names of a directory after each step of a publication of src/publication.rs.
use kunobi_daemon.Common.{
  ℕ, ◌≡◌, refl, sym, ap, ◌∙◌, Bool, true, false, none, some, if◌then◌else◌, inl, inr, Bool-cases,
}
use kunobi_daemon.Publication.{
  Name, record_name, temporary, dropped, Node, Files, same_name, lookup, remove, put, rename_found,
  rename,
}
use kunobi_daemon.Publication.Directory.{
  same_name_sound, lookup-put, lookup-remove, lookup-put_same,
}

-- Dropping a temporary file that was not there before leaves every name as it was.
pub lookup-dropped :
    (name temp : Name) (node : Node) (files : Files)
    → lookup temp files ≡ none
    → lookup name (remove temp (put temp node files)) ≡ lookup name files
lookup-dropped name temp node files fresh =
    lookup-remove name temp (put temp node files) ∙ elim (Bool-cases (same_name name temp)) [
      | inl h ↦ rw h (sym fresh ∙ ap (λ n. lookup n files) (sym (same_name_sound name temp h)))
      | inr h ↦ rw h (lookup-put name temp node files ∙ (rw h refl))
    ]

rename-put :
    (from to : Name) (node : Node) (files : Files)
    → rename from to (put from node files) ≡ put to node (remove from (put from node files))
unfolding rename rename_found
rename-put from to node files = rw (lookup-put_same from node files) refl

-- The directory after the rename, whose temporary name is free again.
lookup-rename_removed :
    (name temp : Name) (node : Node) (files : Files)
    → lookup temp files ≡ none
    → same_name temp record_name ≡ false
    → lookup name (remove temp (rename temp record_name (put temp node files)))
      ≡ (if same_name name record_name then some node else lookup name files)
lookup-rename_removed name temp node files fresh apart =
    ap (λ fs. lookup name (remove temp fs)) (rename-put temp record_name node files)
    ∙ (lookup-remove name temp (put record_name node (remove temp (put temp node files)))
        ∙ elim (Bool-cases (same_name name temp)) [
          | inl h ↦ rw (h, same_name_sound name temp h, apart) (sym fresh)
          | inr h ↦ rw h (
              lookup-put name record_name node (remove temp (put temp node files))
              ∙ (rw (lookup-dropped name temp node files fresh) refl))
        ])

lookup_record-rename :
    (temp : Name) (node : Node) (files : Files)
    → lookup record_name (rename temp record_name (put temp node files)) ≡ some node
lookup_record-rename temp node files =
    ap (lookup record_name) (rename-put temp record_name node files)
    ∙ lookup-put_same record_name node (remove temp (put temp node files))

-- While a temporary file is written, the record stays as it was.
pub lookup_record-put :
    (pid n : ℕ) (node : Node) (files : Files)
    → lookup record_name (put (temporary pid n) node files) ≡ lookup record_name files
unfolding same_name
lookup_record-put pid n node files = lookup-put record_name (temporary pid n) node files

pub temporary-apart : (pid n : ℕ) → same_name (temporary pid n) record_name ≡ false
unfolding same_name
temporary-apart pid n = refl

pub dropped-record :
    (removes : Bool) (pid n : ℕ) (node : Node) (files : Files)
    → lookup (temporary pid n) files ≡ none
    → lookup record_name (dropped removes (temporary pid n) (put (temporary pid n) node files))
      ≡ lookup record_name files
dropped-record false pid n node files fresh = lookup_record-put pid n node files
dropped-record true pid n node files fresh =
    lookup-dropped record_name (temporary pid n) node files fresh

-- The directory after the rename, where the temporary name is free whatever its removal does.
pub lookup-renamed :
    (removes : Bool) (pid n : ℕ) (new : Node) (files : Files) (name : Name)
    → lookup (temporary pid n) files ≡ none
    → lookup name (
        dropped removes
          (temporary pid n)
          (rename (temporary pid n) record_name (put (temporary pid n) new files)))
      ≡ (if same_name name record_name then some new else lookup name files)
lookup-renamed false pid n new files name fresh =
    ap (lookup name) (rename-put (temporary pid n) record_name new files)
    ∙ (lookup-put name record_name new (remove (temporary pid n) (put (temporary pid n) new files))
        ∙ (rw (lookup-dropped name (temporary pid n) new files fresh) refl))
lookup-renamed true pid n new files name fresh =
    lookup-rename_removed name (temporary pid n) new files fresh (temporary-apart pid n)
