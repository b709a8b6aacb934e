-- ===== src/Wire/Negotiation.antt =====
-- What a negotiation of src/wire.rs agrees on, capability by capability.
use kunobi_daemon.Common.{
  ℕ, ◌-◌, ◌≤◌, ◌<◌, min, max, ◌≡◌, refl, ◌↔◌, inl, inr, true, List, [], ◌∷◌, arith, ok, ltb, ltb→lt,
  Bool-cases,
}
use kunobi_daemon.Common.Words.{u64_max}
use kunobi_daemon.Common.Bits.{
  bit, bit-le, bit-zero, bit_ext, bit-bit_and, bit-bit_or, bit-complement, bit_above, bit_and-le,
  bit_or-lt,
}
use Prim.Native.Nat.{bit_and, bit_or}
use kunobi_daemon.Wire.{
  Terms, Hello, Agreement, WireError, version, min_frame, complement, terms_of, valid, agree,
  validate, same_bytes, same_service, negotiate, required_capability_unavailable, no_common_version,
}
use kunobi_daemon.Wire

bit_and_comm : (a b : ℕ) → bit_and a b ≡ bit_and b a
bit_and_comm a b = bit_ext _ _ (λ k. omega (arith, bit-bit_and k a b, bit-bit_and k b a))

bit_or_comm : (a b : ℕ) → bit_or a b ≡ bit_or b a
bit_or_comm a b = bit_ext _ _ (λ k. omega (arith, bit-bit_or k a b, bit-bit_or k b a))

bit-complement64 : (k x : ℕ) → x ≤ u64_max → k < 64 → bit k (complement x) ≡ 1 - bit k x
bit-complement64 k x h b = bit-complement k 64 x b (omega arith)

-- `required & !supported == 0` says that every bit of the one mask is in the other.
abbrev pub Covers : ℕ → ℕ → Type 0
Covers supported required = (k : ℕ) → bit k required ≤ bit k supported

Covers-of_test :
    (supported required : ℕ)
    → supported ≤ u64_max
    → required ≤ u64_max
    → bit_and required (complement supported) ≡ 0
    → Covers supported required
Covers-of_test supported required hs hr e k = elim (Bool-cases (ltb k 64)) [
  | inl low ↦
      let zero_bit : bit k (bit_and required (complement supported)) ≡ 0 = rw e (bit-zero k) in
      omega (
        arith,
        bit-bit_and k required (complement supported),
        bit-complement64 k supported hs (ltb→lt k 64 low),
        bit-le k supported,
        bit-le k required,
      )
  | inr high ↦ omega (arith, bit_above k 64 required (ground arith) (omega arith))
]

pub test_of_Covers :
    (supported required : ℕ)
    → supported ≤ u64_max
    → required ≤ u64_max
    → Covers supported required
    → bit_and required (complement supported) ≡ 0
test_of_Covers supported required hs hr c = bit_ext _ 0 each
  where
    each : (k : ℕ) → bit k (bit_and required (complement supported)) ≡ bit k 0
    each k = elim (Bool-cases (ltb k 64)) [
      | inl low ↦ omega (
        arith,
        c k,
        bit-zero k,
        bit-bit_and k required (complement supported),
        bit-complement64 k supported hs (ltb→lt k 64 low),
        bit-le k supported,
      )
      | inr high ↦ omega (
        arith,
        bit-zero k,
        bit-bit_and k required (complement supported),
        bit_above k 64 required (ground arith) (omega arith),
      )
    ]

-- Each peer calculates the agreement by itself, its own terms first. Both get the same agreement,
-- or the same error.
pub agree_comm : (a b : Terms) → agree a b ≡ agree b a
unfolding agree
agree_comm a b =
    rw
      (
        bit_and_comm a.supported b.supported,
        bit_or_comm a.required b.required,
        max_comm a.minimum b.minimum,
        min_comm a.maximum b.maximum,
        min_comm a.max_frame b.max_frame,
      )
      refl
  where
    max_comm : (m n : ℕ) → max m n ≡ max n m
    max_comm m n = omega arith

    min_comm : (m n : ℕ) → min m n ≡ min n m
    min_comm m n = omega arith

-- The masks of an offer are 64-bit words.
pub record IsWords (t : Terms) : Type 0 where
  pub supported_fits : t.supported ≤ u64_max
  pub required_fits : t.required ≤ u64_max

-- What an agreement of two offers is, capability by capability.
pub record Agrees (a b : Terms) (g : Agreement) : Type 0 where
  pub version_fixed : g.version ≡ version
  pub left_speaks : (a.minimum ≤ g.version) × (g.version ≤ a.maximum)
  pub right_speaks : (b.minimum ≤ g.version) × (g.version ≤ b.maximum)
  pub frame_smaller : g.max_frame ≡ min a.max_frame b.max_frame
  pub shared : (k : ℕ) → bit k g.capabilities ≡ min (bit k a.supported) (bit k b.supported)
  pub left_required : Covers g.capabilities a.required
  pub right_required : Covers g.capabilities b.required

-- The checks that an agreement has passed.
agree_ok :
    (a b : Terms) (g : Agreement)
    → agree a b ≡ ok g
    → ((max a.minimum b.minimum ≤ version) × (version ≤ min a.maximum b.maximum))
      × (bit_and (bit_or a.required b.required) (complement (bit_and a.supported b.supported)) ≡ 0)
      × (g ≡ record {
        version = version;
        capabilities = bit_and a.supported b.supported;
        max_frame = min a.max_frame b.max_frame;
      })
unfolding agree
agree_ok a b g e = ground arith

-- And the other way round.
ok_agree :
    (a b : Terms) (g : Agreement)
    → (max a.minimum b.minimum ≤ version) × (version ≤ min a.maximum b.maximum)
    → bit_and (bit_or a.required b.required) (complement (bit_and a.supported b.supported)) ≡ 0
    → g.version ≡ version
    → g.capabilities ≡ bit_and a.supported b.supported
    → g.max_frame ≡ min a.max_frame b.max_frame
    → agree a b ≡ ok g
unfolding agree
ok_agree a b g versions z v c f = ground arith

and_fits : (a b : ℕ) → a ≤ u64_max → bit_and a b ≤ u64_max
and_fits a b h = omega (arith, bit_and-le a b)

or_fits : (a b : ℕ) → a ≤ u64_max → b ≤ u64_max → bit_or a b ≤ u64_max
or_fits a b h k = omega (arith, bit_or-lt 64 a b (omega arith) (omega arith))

module _ (a b : Terms) (wa : IsWords a) (wb : IsWords b) where
  abbrev both_required : ℕ
  both_required = bit_or a.required b.required

  abbrev both_supported : ℕ
  both_supported = bit_and a.supported b.supported

  supported_fit : both_supported ≤ u64_max
  supported_fit = and_fits a.supported b.supported wa.supported_fits

  required_fit : both_required ≤ u64_max
  required_fit = or_fits a.required b.required wa.required_fits wb.required_fits

  agreed_Agrees : (g : Agreement) → agree a b ≡ ok g → Agrees a b g
  agreed_Agrees g e =
      let (versions, z, shape) = agree_ok a b g e in
      let covers : Covers both_supported both_required =
        Covers-of_test both_supported both_required supported_fit required_fit z in
      rw shape (record {
        version_fixed = refl;
        left_speaks = omega arith;
        right_speaks = omega arith;
        frame_smaller = refl;
        shared = λ k. bit-bit_and k a.supported b.supported;
        left_required = λ k. omega (arith, covers k, bit-bit_or k a.required b.required);
        right_required = λ k. omega (arith, covers k, bit-bit_or k a.required b.required);
      })

  Agrees-agreed : (g : Agreement) → Agrees a b g → agree a b ≡ ok g
  Agrees-agreed g h =
      let caps : g.capabilities ≡ both_supported =
        bit_ext g.capabilities both_supported
          (λ k. omega (arith, h.shared k, bit-bit_and k a.supported b.supported)) in
      let z : bit_and both_required (complement both_supported) ≡ 0 =
        test_of_Covers both_supported both_required supported_fit required_fit (λ k. omega (
          arith,
          h.shared k,
          h.left_required k,
          h.right_required k,
          bit-bit_and k a.supported b.supported,
          bit-bit_or k a.required b.required,
        )) in
      ok_agree a b g (omega arith) z h.version_fixed caps h.frame_smaller

  -- For offers whose masks are 64-bit words, an agreement is reached exactly when it is the one
  -- that the offers determine: the version that both peers speak, the smaller frame bound, the
  -- capabilities that both support, and among these every capability that either requires.
  pub agree_iff : (g : Agreement) → (agree a b ≡ ok g) ↔ Agrees a b g
  agree_iff g = (agreed_Agrees g, Agrees-agreed g)

same_bytes_symm : (as' bs : List ℕ) → same_bytes as' bs ≡ true → same_bytes bs as' ≡ true
same_bytes_symm [] [] h = refl
same_bytes_symm [] (b ∷ bs) h = cc
same_bytes_symm (a ∷ as') [] h = cc
same_bytes_symm (a ∷ as') (b ∷ bs) h = ground (arith, same_bytes_symm as' bs)

same_service_symm : (a b : Hello) → same_service a b ≡ true → same_service b a ≡ true
unfolding same_service
same_service_symm a b h = ground (
  arith,
  same_bytes_symm a.service_id b.service_id,
  same_bytes_symm a.application b.application,
  same_bytes_symm a.profile b.profile,
  same_bytes_symm a.instance_name b.instance_name,
)

-- If one peer's negotiation succeeds, the other's succeeds with the same agreement.
pub negotiate_symm :
    (local remote : Hello) (g : Agreement)
    → negotiate local remote ≡ ok g
    → negotiate remote local ≡ ok g
unfolding negotiate
negotiate_symm local remote g e =
    ground (arith, same_service_symm local remote, agree_comm (terms_of local) (terms_of remote))

-- A negotiated frame bound lies within the protocol's bounds and within those of both peers.
pub negotiate_bounds :
    (local remote : Hello) (g : Agreement)
    → negotiate local remote ≡ ok g
    → (min_frame ≤ g.max_frame)
      × (g.max_frame ≤ Wire.max_frame)
      × (g.max_frame ≤ local.max_frame)
      × (g.max_frame ≤ remote.max_frame)
unfolding negotiate agree validate valid
negotiate_bounds local remote g e = ground arith
