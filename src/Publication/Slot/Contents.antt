-- ===== src/Publication/Slot/Contents.antt =====
-- What src/publication.rs reads of a record, and that a publication puts it in place.
use kunobi_daemon.Common.{
  ok_inj, some_inj, ℕ, zero, suc, ◌+◌, ◌≤◌, ◌≡◌, ◌≢◌, refl, sym, ap, ◌∙◌, true, Option, none, some,
  List, [], ◌∷◌, Result, ok, err, ◌>>=◌, if◌then◌else◌, if_either, ltb, length, take, same_bytes,
  same_bytes_equal, arith, inl, inr, Bool-cases,
}
use kunobi_daemon.Publication.{
  record_name, Failure, too_long, Node, regular, irregular, Files, lookup, RecordOptions, publish,
}
use kunobi_daemon.Publication.Atomic.{leaves, publish-IsAtomic}
use kunobi_daemon.Publication.Slot.{
  Access, readable, unopenable, unreadable, Turn, read_node, matches_opened, matches_behind,
  matches_node, matches, published, replace,
}

take_short : (n : ℕ) (bytes : List ℕ) → length bytes ≤ n → take n bytes ≡ bytes
take_short zero [] h = refl
take_short zero (b ∷ bytes) h = absurd (omega (arith, h))
take_short (suc n) [] h = refl
take_short (suc n) (b ∷ bytes) h = ap (λ bs. b ∷ bs) (take_short n bytes (omega (arith, h)))

take_long : (n : ℕ) (bytes : List ℕ) → n ≤ length bytes → length (take n bytes) ≡ n
take_long zero bytes h = refl
take_long (suc n) [] h = absurd (omega (arith, h))
take_long (suc n) (b ∷ bytes) h = omega (arith, take_long n bytes (omega (arith, h)))

same_bytes-take-suc :
    (bytes wanted : List ℕ)
    → same_bytes (take (suc (length wanted)) bytes) wanted ≡ same_bytes bytes wanted
same_bytes-take-suc [] wanted = refl
same_bytes-take-suc (b ∷ bytes) [] = refl
same_bytes-take-suc (b ∷ bytes) (w ∷ wanted) = ground (arith, same_bytes-take-suc bytes wanted)

-- A record that was cut one byte after the wanted length is the wanted one only if it is so whole.
same_bytes-take :
    (bytes wanted : List ℕ)
    → same_bytes (take (length wanted + 1) bytes) wanted ≡ same_bytes bytes wanted
same_bytes-take bytes wanted =
    let e : length wanted + 1 ≡ suc (length wanted) = omega arith in
    ap (λ n. same_bytes (take n bytes) wanted) e ∙ same_bytes-take-suc bytes wanted

pub read_node-regular :
    (limit mode : ℕ) (bytes : List ℕ)
    → read_node limit readable (some (regular mode bytes))
      ≡ (if ltb limit (length bytes) then err too_long else ok (some bytes))
unfolding read_node
read_node-regular limit mode bytes = elim (Bool-cases (ltb limit (length bytes))) [
  | inl h ↦
      let long : limit + 1 ≤ length bytes = ground (arith, h) in
      ground (arith, h, take_long (limit + 1) bytes long)
  | inr h ↦
      let short : length bytes ≤ limit + 1 = ground (arith, h) in
      rw (take_short (limit + 1) bytes short) refl
]

pub matches_node-regular :
    (wanted : List ℕ) (mode : ℕ) (bytes : List ℕ)
    → matches_node wanted readable (some (regular mode bytes)) ≡ ok (same_bytes bytes wanted)
unfolding matches_node matches_opened
matches_node-regular wanted mode bytes = ap (λ b. ok b) (same_bytes-take bytes wanted)

pub then_ok :
    {A : Type 0} (r : Result Failure (Unit {0})) (a a' : A)
    → ◌≡◌ {A = Result Failure A} (r >>= λ u. ok a) (ok a')
    → r ≡ ok tt
then_ok (ok u) a a' h = refl
then_ok (err e) a a' h = cc

-- A publication that succeeds under the lock has the new record in place.
pub published-ok :
    {A : Type 0} (a a' : A) (options : RecordOptions) (contents : List ℕ) (turn : Turn)
    (files files' : Files)
    → published a (publish options contents turn.pid turn.next turn.fails turn.cleans files)
      ≡ some (files', ok a')
    → lookup record_name files' ≡ some (regular options.mode contents)
unfolding published
published-ok a a' options contents turn files files' h =
    let (n, p, found, fresh, atomic) =
      publish-IsAtomic options contents turn.pid turn.next turn.fails turn.cleans files in
    let same = some_inj (sym (ap (published a) found) ∙ h) in
    let fine : p.result ≡ ok tt = then_ok p.result a a' (ap (λ q. q.1) same) in
    ap (lookup record_name) (sym (ap (λ q. q.0) same))
    ∙ (atomic.left
        ∙ ap (leaves (lookup record_name files) (some (regular options.mode contents))) fine)

pub replace-ok :
    (options : RecordOptions) (contents : List ℕ) (turn : Turn) (files files' : Files)
    → replace options contents turn files ≡ some (files', ok tt)
    → lookup record_name files' ≡ some (regular options.mode contents)
unfolding replace
replace-ok options contents turn files files' h =
    if_either
      (λ o.
        o ≡ some (files', ok tt) → lookup record_name files' ≡ some (regular options.mode contents))
      turn.locked (λ l. published-ok tt tt options contents turn files files') (λ l e. cc) h

pub matches-placed :
    (wanted contents : List ℕ) (mode : ℕ) (files : Files)
    → lookup record_name files ≡ some (regular mode contents)
    → matches wanted readable files ≡ ok (same_bytes contents wanted)
unfolding matches
matches-placed wanted contents mode files h =
    ap (matches_node wanted readable) h ∙ matches_node-regular wanted mode contents

-- A record that cannot be opened or read matches nothing.
pub matches_unread :
    (wanted : List ℕ) (access : Access) (node : Option Node)
    → access ≢ readable
    → matches_node wanted access node ≢ ok true
unfolding matches_node matches_behind matches_opened
matches_unread wanted readable found a h = a refl
matches_unread wanted unopenable found a h = cc
matches_unread wanted unreadable none a h = cc
matches_unread wanted unreadable (some (regular mode bytes)) a h = cc
matches_unread wanted unreadable (some (irregular (err e))) a h = cc
matches_unread wanted unreadable (some (irregular (ok none))) a h = cc
matches_unread wanted unreadable (some (irregular (ok (some bytes)))) a h = cc

pub matches-other :
    (older contents : List ℕ) (access : Access) (mode : ℕ) (files : Files)
    → lookup record_name files ≡ some (regular mode contents)
    → older ≢ contents
    → matches older access files ≢ ok true
matches-other older contents readable mode files placed d h =
    let same = ok_inj (sym (matches-placed older contents mode files placed) ∙ h) in
    d (sym (same_bytes_equal contents older same))
matches-other older contents unopenable mode files placed d h =
    unfold matches in matches_unread older unopenable (lookup record_name files) (cc) h
matches-other older contents unreadable mode files placed d h =
    unfold matches in matches_unread older unreadable (lookup record_name files) (cc) h
