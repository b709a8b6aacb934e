-- ===== src/Transport/Outstanding/Counts.antt =====
-- Counting the requests of the tracked set of src/transport.rs, by key.
use kunobi_daemon.Common.{
  ℕ, zero, suc, ◌+◌, ◌-◌, ◌<◌, ◌≡◌, refl, sym, ap, ◌∙◌, Bool, true, false, none, some, List, [],
  ◌∷◌, ◌++◌, arith, ◌==◌, if◌then◌else◌, replicate, length, inl, inr, Bool-cases,
}
use kunobi_daemon.Transport.{Key}
use kunobi_daemon.Transport.Outstanding.{no_keys, failed_keys, raise, get_count, lower}

abbrev pub none_left : {K : Type 0} → List K → Bool
none_left [] = true
none_left (_ ∷ _) = false

module _ {K : Type 0} ⦃key : Key K⦄ where
  unfoldable pub erase : K → List K → List K
  erase k [] = []
  erase k (j ∷ js) = if key.same k j then js else j ∷ erase k js

  abbrev pub one : K → K → ℕ
  one k j = if key.same k j then 1 else 0

  unfoldable pub count : K → List K → ℕ
  count k [] = 0
  count k (j ∷ js) = one k j + count k js

  -- The requests of a key that the map counts.
  unfoldable pub total : K → List (K × ℕ) → ℕ
  total k [] = 0
  total k ((j, n) ∷ keys) = (if key.same k j then n else 0) + total k keys

  abbrev pub AllPositive : List (K × ℕ) → Type 0
  AllPositive [] = Unit {0}
  AllPositive ((j, n) ∷ keys) = (0 < n) × AllPositive keys

  same-sym : (a b : K) → key.same a b ≡ true → b ≡ a
  same-sym a b h = sym ((key.same_iff a b).0 h)

  pub same_refl : (a : K) → key.same a a ≡ true
  same_refl a = (key.same_iff a a).1 refl

  pub total-raise :
      (j k : K) (keys : List (K × ℕ)) → total j (raise k keys) ≡ one j k + total j keys
  unfolding total raise
  total-raise j k [] = ground arith
  total-raise j k ((i, n) ∷ keys) = elim (Bool-cases (key.same k i)) [
    | inl h ↦ rw (h, (key.same_iff k i).0 h) (ground arith)
    | inr h ↦ rw h (omega (arith, total-raise j k keys))
  ]

  pub raise-AllPositive :
      (k : K) (keys : List (K × ℕ)) → AllPositive keys → AllPositive (raise k keys)
  unfolding raise
  raise-AllPositive k [] p = (omega arith, tt)
  raise-AllPositive k ((i, n) ∷ keys) p = elim (Bool-cases (key.same k i)) [
    | inl h ↦ rw h (omega arith, p.1)
    | inr h ↦ rw h (p.0, raise-AllPositive k keys p.1)
  ]

  pub get_count-none : (k : K) (keys : List (K × ℕ)) → get_count k keys ≡ none → total k keys ≡ 0
  unfolding total get_count
  get_count-none k [] e = refl
  get_count-none k ((i, n) ∷ keys) e = elim (Bool-cases (key.same k i)) [
    | inl h ↦ ground (arith, h)
    | inr h ↦ ground (arith, h, get_count-none k keys)
  ]

  pub get_count-some :
      (k : K) (keys : List (K × ℕ)) (n : ℕ)
      → AllPositive keys
      → get_count k keys ≡ some n
      → 0 < total k keys
  unfolding total get_count
  get_count-some k [] n p e = cc
  get_count-some k ((i, m) ∷ keys) n p e = elim (Bool-cases (key.same k i)) [
    | inl h ↦ ground (arith, h)
    | inr h ↦ ground (arith, h, get_count-some k keys n p.1)
  ]

  pub total-lower :
      (j k : K) (keys : List (K × ℕ)) (n : ℕ)
      → AllPositive keys
      → get_count k keys ≡ some n
      → one j k + total j (lower k keys) ≡ total j keys
  unfolding total lower get_count
  total-lower j k [] n p e = cc
  total-lower j k ((i, m) ∷ keys) n p e = elim (Bool-cases (key.same k i)) [
    | inl h ↦ rw (h, (key.same_iff k i).0 h) (ground arith)
    | inr h ↦ ground (arith, h, total-lower j k keys n p.1)
  ]

  fewer-AllPositive :
      (i : K) (n : ℕ) (keys : List (K × ℕ))
      → AllPositive keys
      → AllPositive (if n - 1 == 0 then keys else (i, n - 1) ∷ keys)
  fewer-AllPositive i n keys p = elim (Bool-cases (n - 1 == 0)) [
    | inl h ↦ rw h p
    | inr h ↦ rw h (ground (arith, h), p)
  ]

  pub lower-AllPositive :
      (k : K) (keys : List (K × ℕ)) → AllPositive keys → AllPositive (lower k keys)
  unfolding lower
  lower-AllPositive k [] p = tt
  lower-AllPositive k ((i, n) ∷ keys) p = elim (Bool-cases (key.same k i)) [
    | inl h ↦ rw h (fewer-AllPositive i n keys p.1)
    | inr h ↦ rw h (p.0, lower-AllPositive k keys p.1)
  ]

  pub count-erase :
      (j k : K) (js : List K) → 0 < count k js → one j k + count j (erase k js) ≡ count j js
  unfolding count erase
  count-erase j k [] h = absurd (omega arith)
  count-erase j k (i ∷ js) p = elim (Bool-cases (key.same k i)) [
    | inl h ↦ rw (h, (key.same_iff k i).0 h) refl
    | inr h ↦ ground (arith, h, count-erase j k js)
  ]

  pub erase_missing : (k : K) (js : List K) → count k js ≡ 0 → erase k js ≡ js
  unfolding count erase
  erase_missing k [] h = refl
  erase_missing k (i ∷ js) p = elim (Bool-cases (key.same k i)) [
    | inl h ↦ absurd (ground (arith, h))
    | inr h ↦ rw (h, erase_missing k js (ground (arith, h))) refl
  ]

  pub length-erase : (k : K) (js : List K) → 0 < count k js → length js ≡ suc (length (erase k js))
  unfolding count erase
  length-erase k [] h = absurd (omega arith)
  length-erase k (i ∷ js) p = elim (Bool-cases (key.same k i)) [
    | inl h ↦ rw h refl
    | inr h ↦ rw h (ap suc (length-erase k js (ground (arith, h))))
  ]

  pub no_keys-none_left :
      (keys : List (K × ℕ)) (js : List K)
      → ((k : K) → total k keys ≡ count k js)
      → AllPositive keys
      → no_keys keys ≡ none_left js
  unfolding total count
  no_keys-none_left [] [] h p = refl
  no_keys-none_left [] (j ∷ js) h p = absurd (ground (arith, h j, same_refl j))
  no_keys-none_left ((i, n) ∷ keys) [] h p = absurd (ground (arith, h i, same_refl i))
  no_keys-none_left ((i, n) ∷ keys) (j ∷ js) h p = refl

  pub count-append : (j : K) (xs bs : List K) → count j (xs ++ bs) ≡ count j xs + count j bs
  unfolding count
  count-append j [] bs = omega arith
  count-append j (a ∷ xs) bs = omega (arith, count-append j xs bs)

  pub count-replicate :
      (j i : K) (n : ℕ) → count j (replicate n i) ≡ (if key.same j i then n else 0)
  unfolding count
  count-replicate j i zero = ground arith
  count-replicate j i (suc n) = ground (arith, count-replicate j i n)

  pub total-failed_keys : (j : K) (keys : List (K × ℕ)) → count j (failed_keys keys) ≡ total j keys
  unfolding total failed_keys
  total-failed_keys j [] = unfold count in refl
  total-failed_keys j ((i, n) ∷ keys) =
      count-append j (replicate n i) (failed_keys keys)
      ∙ (rw (count-replicate j i n, total-failed_keys j keys) refl)
