-- ===== src/Publication/Atomic.antt =====
-- A publication of src/publication.rs, seen by readers and after a failure.
use kunobi_daemon.Common.{
  ◌||◌, ℕ, ◌+◌, ◌≡◌, refl, sym, ◌∙◌, Bool, true, false, Option, none, some, List, [], ◌∷◌, Result,
  ok, err, if_either, length, arith, ◌⊎◌, inl, inr,
}
use kunobi_daemon.Publication.{
  Name, record_name, temporary, Failure, permissions, writing, syncing, renaming, directory,
  abandoned, dropped, Node, regular, Files, same_name, lookup, put, rename, RecordOptions, Fails,
  never, at_open, at_permissions, at_sync, at_rename, at_directory, at_write, Published,
  publish_through, publish_numbered, publish,
}
use kunobi_daemon.Publication.Numbers.{free_number-free, later-length}
use kunobi_daemon.Publication.Renaming.{
  dropped-record, lookup-dropped, lookup_record-put, lookup-renamed, temporary-apart,
}
use kunobi_daemon.Publication.Directory.{same_name_refl, lookup-put}

-- A moment: the record is the old one or the new one, and every other name but the temporary one is
-- as it was.
pub record IsMoment (files : Files) (new : Node) (temp : Name) (now : Files) : Type 0 where
  pub whole :
      (lookup record_name now ≡ lookup record_name files) ⊎ (lookup record_name now ≡ some new)
  pub others :
      (name : Name)
      → same_name name record_name ≡ false
      → same_name name temp ≡ false
      → lookup name now ≡ lookup name files

abbrev pub AllMoments : Files → Node → Name → List Files → Type 0
AllMoments files new temp [] = Unit {0}
AllMoments files new temp (now ∷ seen) =
    IsMoment files new temp now × AllMoments files new temp seen

-- What a publication leaves, by its result.
abbrev pub leaves : Option Node → Option Node → Result Failure (Unit {0}) → Option Node
leaves old new (ok u) = new
leaves old new (err directory) = new
leaves old new (err _) = old

-- The new record is in place.
abbrev pub in_place : Result Failure (Unit {0}) → Bool
in_place (ok u) = true
in_place (err directory) = true
in_place (err _) = false

-- What readers and a crash can see of a publication, and what it leaves.
pub record IsAtomic (files : Files) (new : Node) (temp : Name) (removes : Bool) (p : Published)
    : Type 0 where
  pub moments : AllMoments files new temp (p.files ∷ p.seen)
  pub left : lookup record_name p.files ≡ leaves (lookup record_name files) (some new) p.result
  pub cleaned : (in_place p.result || removes) ≡ true → lookup temp p.files ≡ none

unchanged : (pid n : ℕ) (new : Node) (files : Files) → IsMoment files new (temporary pid n) files
unchanged pid n new files = record { whole = inl refl; others = λ name d e. refl }

-- The directory while the temporary file is there.
written-IsMoment :
    (pid n : ℕ) (node new : Node) (files : Files)
    → IsMoment files new (temporary pid n) (put (temporary pid n) node files)
written-IsMoment pid n node new files = record {
  whole = inl (lookup_record-put pid n node files);
  others = λ name d e. lookup-put name (temporary pid n) node files ∙ (rw e refl);
}

dropped-IsMoment :
    (removes : Bool) (pid n : ℕ) (node new : Node) (files : Files)
    → lookup (temporary pid n) files ≡ none
    → IsMoment files new
        (temporary pid n)
        (dropped removes (temporary pid n) (put (temporary pid n) node files))
dropped-IsMoment false pid n node new files fresh = written-IsMoment pid n node new files
dropped-IsMoment true pid n node new files fresh = record {
  whole = inl (lookup-dropped record_name (temporary pid n) node files fresh);
  others = λ name d e. lookup-dropped name (temporary pid n) node files fresh;
}

-- The four moments before the rename.
before-AllMoments :
    (pid n : ℕ) (a b c new : Node) (files : Files)
    → AllMoments files new (temporary pid n) (
        put (temporary pid n) a files
        ∷ put (temporary pid n) b files
        ∷ put (temporary pid n) c files
        ∷ files
        ∷ [])
before-AllMoments pid n a b c new files = (
  written-IsMoment pid n a new files,
  (
    written-IsMoment pid n b new files,
    (written-IsMoment pid n c new files, (unchanged pid n new files, tt)),
  ),
)

abandoned-cleaned :
    (removes : Bool) (temp : Name) (node : Node) (files : Files) (failure : Failure)
    → in_place (err failure) ≡ false
    → lookup temp files ≡ none
    → (in_place (err failure) || removes) ≡ true
    → lookup temp (dropped removes temp (put temp node files)) ≡ none
abandoned-cleaned false temp node files failure l fresh h = cc
abandoned-cleaned true temp node files failure l fresh h =
    lookup-dropped temp temp node files fresh ∙ fresh

dropped-IsAtomic :
    (removes : Bool) (pid n : ℕ) (node new : Node) (seen : List Files) (files : Files)
    (failure : Failure)
    → lookup (temporary pid n) files ≡ none
    → leaves (lookup record_name files) (some new) (err failure) ≡ lookup record_name files
    → in_place (err failure) ≡ false
    → AllMoments files new (temporary pid n) (put (temporary pid n) node files ∷ seen)
    → IsAtomic files new
        (temporary pid n)
        removes
        (abandoned removes (temporary pid n) seen (put (temporary pid n) node files) failure)
dropped-IsAtomic removes pid n node new seen files failure fresh l out w = record {
  moments = (dropped-IsMoment removes pid n node new files fresh, w);
  left = dropped-record removes pid n node files fresh ∙ sym l;
  cleaned = abandoned-cleaned removes (temporary pid n) node files failure out fresh;
}

renamed-IsMoment :
    (removes : Bool) (pid n : ℕ) (new : Node) (files : Files)
    → lookup (temporary pid n) files ≡ none
    → IsMoment files new (temporary pid n) (
        dropped removes
          (temporary pid n)
          (rename (temporary pid n) record_name (put (temporary pid n) new files)))
renamed-IsMoment removes pid n new files fresh = record {
  whole = inr (
      lookup-renamed removes pid n new files record_name fresh
      ∙ (rw (same_name_refl record_name) refl));
  others = λ name d e. lookup-renamed removes pid n new files name fresh ∙ (rw d refl);
}

renamed-IsAtomic :
    (removes : Bool) (pid n : ℕ) (new : Node) (seen : List Files) (files : Files)
    (result : Result Failure (Unit {0}))
    → lookup (temporary pid n) files ≡ none
    → leaves (lookup record_name files) (some new) result ≡ some new
    → AllMoments files new (temporary pid n) seen
    → let renamed = rename (temporary pid n) record_name (put (temporary pid n) new files) in
      IsAtomic files new (temporary pid n) removes (record {
        files = dropped removes (temporary pid n) renamed;
        seen = renamed ∷ seen;
        result = result;
      })
renamed-IsAtomic removes pid n new seen files result fresh l w = record {
  moments = (
    renamed-IsMoment removes pid n new files fresh,
    (renamed-IsMoment false pid n new files fresh, w),
  );
  left =
      lookup-renamed removes pid n new files record_name fresh
      ∙ ((rw (same_name_refl record_name) refl) ∙ sym l);
  cleaned = λ h.
      lookup-renamed removes pid n new files (temporary pid n) fresh
      ∙ (rw (temporary-apart pid n) fresh);
}

publish_through-IsAtomic :
    (options : RecordOptions) (contents : List ℕ) (pid n : ℕ) (fails : Fails) (removes : Bool)
    (files : Files)
    → lookup (temporary pid n) files ≡ none
    → IsAtomic files
        (regular options.mode contents)
        (temporary pid n)
        removes
        (publish_through options contents (temporary pid n) fails removes files)
unfolding publish_through
publish_through-IsAtomic options contents pid n at_open removes files fresh = record {
  moments = (unchanged pid n _ files, tt);
  left = refl;
  cleaned = λ h. fresh;
}
publish_through-IsAtomic options contents pid n at_permissions removes files fresh =
    dropped-IsAtomic removes pid n _ _ _ files permissions fresh refl refl
      (written-IsMoment pid n _ _ files, (unchanged pid n _ files, tt))
publish_through-IsAtomic options contents pid n (at_write part) removes files fresh =
    dropped-IsAtomic removes pid n _ _ _ files writing fresh refl refl
      (before-AllMoments pid n _ _ _ _ files)
publish_through-IsAtomic options contents pid n at_sync removes files fresh =
    dropped-IsAtomic removes pid n _ _ _ files syncing fresh refl refl
      (before-AllMoments pid n _ _ _ _ files)
publish_through-IsAtomic options contents pid n at_rename removes files fresh =
    dropped-IsAtomic removes pid n _ _ _ files renaming fresh refl refl
      (before-AllMoments pid n _ _ _ _ files)
publish_through-IsAtomic options contents pid n at_directory removes files fresh =
    if_either (IsAtomic files (regular options.mode contents) (temporary pid n) removes)
      options.durable
      (λ d.
        renamed-IsAtomic removes pid n _ _ files (err directory) fresh refl
          (before-AllMoments pid n _ _ _ _ files))
      (λ d.
        renamed-IsAtomic removes pid n _ _ files (ok tt) fresh refl
          (before-AllMoments pid n _ _ _ _ files))
publish_through-IsAtomic options contents pid n never removes files fresh =
    renamed-IsAtomic removes pid n _ _ files (ok tt) fresh refl
      (before-AllMoments pid n _ _ _ _ files)

-- A publication always ends, whatever numbers are taken and whichever of its calls fails, and it uses
-- a temporary file whose name was free. At each moment, also where the process is killed, the record
-- is the old one or the new one, whole, and every other name but the temporary one is as before. The
-- record is the new one when it succeeds, or when only the directory's sync failed, and otherwise the
-- old one; and the temporary name is free again, unless a call before the end of the rename failed
-- and the temporary file cannot be removed either.
pub publish-IsAtomic :
    (options : RecordOptions) (contents : List ℕ) (pid next : ℕ) (fails : Fails) (removes : Bool)
    (files : Files)
    → (n : ℕ) × (p : Published) × (publish options contents pid next fails removes files ≡ some p)
      × (lookup (temporary pid n) files ≡ none)
      × IsAtomic files (regular options.mode contents) (temporary pid n) removes p
unfolding publish publish_numbered
publish-IsAtomic options contents pid next fails removes files =
    let (n, found, fresh) =
      free_number-free (length files + 1) pid next files
        (omega (arith, later-length pid next files)) in
    (
      n,
      publish_through options contents (temporary pid n) fails removes files,
      rw found refl,
      fresh,
      publish_through-IsAtomic options contents pid n fails removes files fresh,
    )
