-- ===== src/Identity.antt =====
-- src/identity.rs: what names a service installation, and which names are accepted.
-- A text is the list of its bytes, and so is the UUID.
use kunobi_daemon.Common.{
  ◌||◌, ℕ, Bool, true, false, ◌&&◌, not, List, [], ◌∷◌, ◌++◌, Result, ok, err, length, ltb, leb,
  ◌==◌, if◌then◌else◌,
}

pub record ServiceIdentity : Type 0 where
  pub id : List ℕ
  pub application : List ℕ
  pub profile : List ℕ
  pub instance_name : List ℕ

pub data IdentityError : Type 0 where
  nil_uuid invalid_component : IdentityError

abbrev pub dot : ℕ
dot = b'.'

abbrev pub in_range : ℕ → ℕ → ℕ → Bool
in_range lo hi b = leb lo b && leb b hi

abbrev pub is_lowercase : ℕ → Bool
is_lowercase = in_range b'a' b'z'

abbrev pub is_digit : ℕ → Bool
is_digit = in_range b'0' b'9'

abbrev pub is_alphanumeric : ℕ → Bool
is_alphanumeric b = is_lowercase b || is_digit b || in_range b'A' b'Z' b

abbrev pub is_allowed : ℕ → Bool
is_allowed b = is_lowercase b || is_digit b || b == b'-' || b == dot

abbrev pub all_allowed : List ℕ → Bool
all_allowed [] = true
all_allowed (b ∷ bs) = is_allowed b && all_allowed bs

-- `component.split('.')`: the part read so far, and the rest of the text.
abbrev pub split_dots : List ℕ → List ℕ → List (List ℕ)
split_dots part [] = part ∷ []
split_dots part (b ∷ bs) = elim (b == dot) [
  | true ↦ part ∷ split_dots [] bs
  | false ↦ split_dots (part ++ b ∷ []) bs
]

abbrev pub last_or : ℕ → List ℕ → ℕ
last_or d [] = d
last_or d (b ∷ bs) = last_or b bs

abbrev pub bad_part : List ℕ → Bool
bad_part [] = true
bad_part (b ∷ bs) = not (is_alphanumeric b) || not (is_alphanumeric (last_or b bs))

abbrev pub any_bad : List (List ℕ) → Bool
any_bad [] = false
any_bad (p ∷ ps) = bad_part p || any_bad ps

abbrev pub is_empty : List ℕ → Bool
is_empty [] = true
is_empty (_ ∷ _) = false

unfoldable pub bad_component : List ℕ → Bool
bad_component c =
    is_empty c || ltb 64 (length c) || not (all_allowed c) || any_bad (split_dots [] c)

abbrev pub is_nil : List ℕ → Bool
is_nil [] = true
is_nil (b ∷ bs) = b == 0 && is_nil bs

-- `ServiceIdentity::new`, on 16 bytes of UUID.
unfoldable pub new : List ℕ → List ℕ → List ℕ → List ℕ → Result IdentityError ServiceIdentity
new id application profile instance_name =
    if is_nil id
    then err nil_uuid
    else if bad_component application || bad_component profile || bad_component instance_name
    then err invalid_component
    else ok (record {
      id = id;
      application = application;
      profile = profile;
      instance_name = instance_name;
    })
