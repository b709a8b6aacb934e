-- ===== src/Publication/Slot/Repairs.antt =====
-- Repairs of a slot of src/publication.rs.
use kunobi_daemon.Common.{
  ok_inj, some_inj, ℕ, ◌≡◌, refl, sym, ap, ◌∙◌, Bool, true, false, some, List, Result, ok, err,
  if_either, same_bytes_refl, ◌⊎◌, inl, inr,
}
use kunobi_daemon.Publication.{record_name, Failure, regular, Files, lookup, RecordOptions}
use kunobi_daemon.Publication.Slot.{
  Access, readable, unopenable, unreadable, Turn, matches, publish_unless, repair,
}
use kunobi_daemon.Publication.Slot.Contents.{matches-placed, matches_unread, published-ok}

matches_readable :
    (wanted : List ℕ) (access : Access) (files : Files)
    → matches wanted access files ≡ ok true
    → matches wanted readable files ≡ ok true
matches_readable wanted readable files h = h
matches_readable wanted unopenable files h =
    absurd (unfold matches in matches_unread wanted unopenable (lookup record_name files) (cc) h)
matches_readable wanted unreadable files h =
    absurd (unfold matches in matches_unread wanted unreadable (lookup record_name files) (cc) h)

publish_unless-ok :
    (test : Result Failure Bool) (options : RecordOptions) (contents : List ℕ) (turn : Turn)
    (files files' : Files) (b : Bool)
    → publish_unless test options contents turn files ≡ some (files', ok b)
    → ((test ≡ ok true) × (b ≡ false) × (files' ≡ files))
      ⊎ ((test ≡ ok false) × (lookup record_name files' ≡ some (regular options.mode contents)))
unfolding publish_unless
publish_unless-ok (err e) options contents turn files files' b h = cc
publish_unless-ok (ok true) options contents turn files files' b h =
    let same = some_inj h in inl (refl, sym (ok_inj (ap (λ r. r.1) same)), sym (ap (λ r. r.0) same))
publish_unless-ok (ok false) options contents turn files files' b h =
    inr (refl, published-ok true b options contents turn files files' h)

repair-ok :
    (options : RecordOptions) (contents : List ℕ) (turn : Turn) (files files' : Files) (b : Bool)
    → repair options contents turn files ≡ some (files', ok b)
    → publish_unless (matches contents turn.access files) options contents turn files
      ≡ some (files', ok b)
unfolding repair
repair-ok options contents turn files files' b h =
    if_either
      (λ o.
        o ≡ some (files', ok b)
        → publish_unless (matches contents turn.access files) options contents turn files
          ≡ some (files', ok b))
      turn.locked (λ l e. e) (λ l e. cc) h

-- After a repair, whether it published or found the record in place, the record is the owner's, and
-- another repair, under the lock, that can read the record finds that and changes nothing.
pub repair_again :
    (options : RecordOptions) (contents : List ℕ) (turn again : Turn) (files files' : Files)
    (b : Bool)
    → repair options contents turn files ≡ some (files', ok b)
    → again.locked ≡ true
    → again.access ≡ readable
    → (matches contents readable files' ≡ ok true)
      × (repair options contents again files' ≡ some (files', ok false))
unfolding repair publish_unless
repair_again options contents turn again files files' b h l a = (there, rw (l, a, there) refl)
  where
    there : matches contents readable files' ≡ ok true
    there =
        elim (publish_unless-ok (matches contents turn.access files) options contents turn files
          files' b (repair-ok options contents turn files files' b h)) [
            | inl kept ↦
                ap (matches contents readable) kept.2
                ∙ matches_readable contents turn.access files kept.0
            | inr placed ↦
                matches-placed contents contents options.mode files' placed.1
                ∙ ap (λ c. ok c) (same_bytes_refl contents)
          ]
