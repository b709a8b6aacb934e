-- ===== src/Wire.antt =====
-- src/wire.rs: the offers that two peers compare, and what they agree on.
-- The fields of the messages are those of src/wire/generated.rs; an enumeration field is what
-- `as_known` reads of it, `none` for a number without a name.
pub mod Negotiation
pub mod Refusals
pub mod Framing
pub mod Frames
pub mod Handshake
pub mod Speaking
pub mod Establish
pub mod Exchange
mod Examples
use kunobi_daemon.Common.{
  ◌||◌, same_bytes, ℕ, ◌-◌, min, max, Bool, true, false, ◌&&◌, not, Option, none, some, List, [],
  Result, ok, err, ◌>>=◌, ◌>>◌, guard, length, ltb, leb, ◌==◌, if◌then◌else◌,
}
use kunobi_daemon.Common.Words.{u64_max}
use Prim.Native.Nat.{bit_and, bit_or}
use kunobi_daemon.Identity.{ServiceIdentity}
use kunobi_daemon.Identity

pub data Refusal : Type 0 where
  not_refused protocol_too_old peer_rejected server_retiring : Refusal

pub data MessageKind : Type 0 where
  lifecycle application : MessageKind

pub record Hello : Type 0 where
  pub minimum : ℕ
  pub maximum : ℕ
  pub supported : ℕ
  pub required : ℕ
  pub max_frame : ℕ
  pub application : List ℕ
  pub profile : List ℕ
  pub instance_name : List ℕ
  pub service_id : List ℕ
  pub reads_refusal : Bool
  pub refusal : Option Refusal

pub record Control : Type 0 where
  pub operation : ℕ
  pub request_id : ℕ
  pub generation : ℕ
  pub token : List ℕ
  pub offset : Option ℕ
  pub payload : List ℕ
  pub kind : Option MessageKind

abbrev pub version : ℕ
version = 2

abbrev pub max_frame : ℕ
max_frame = 65_536

abbrev pub hello_limit : ℕ
hello_limit = 1_024

abbrev pub min_frame : ℕ
min_frame = 256

-- The messages of `invalid`, and what the refusals turn into.
pub data WireError : Type 0 where
  service_uuid_length invalid_service_identity invalid_offer no_common_version : WireError
  required_capability_unavailable service_mismatch invalid_kind unknown_operation : WireError
  capability_not_negotiated unknown_refusal : WireError
  refused : Refusal → WireError

-- `!x` on a `u64`.
abbrev pub complement : ℕ → ℕ
complement x = u64_max - x

pub record Terms : Type 0 where
  pub minimum : ℕ
  pub maximum : ℕ
  pub supported : ℕ
  pub required : ℕ
  pub max_frame : ℕ

abbrev pub terms_of : Hello → Terms
terms_of hello = record {
  minimum = hello.minimum;
  maximum = hello.maximum;
  supported = hello.supported;
  required = hello.required;
  max_frame = hello.max_frame;
}

unfoldable pub valid : Terms → Bool
valid t =
    not (t.minimum == 0)
    && leb t.minimum t.maximum
    && bit_and t.required (complement t.supported) == 0
    && (leb min_frame t.max_frame && leb t.max_frame max_frame)

pub record Agreement : Type 0 where
  pub version : ℕ
  pub capabilities : ℕ
  pub max_frame : ℕ

unfoldable pub agree : Terms → Terms → Result WireError Agreement
agree local remote =
    let minimum : ℕ = max local.minimum remote.minimum in
    let maximum : ℕ = min local.maximum remote.maximum in
    if ltb version minimum || ltb maximum version
    then err no_common_version
    else (let capabilities : ℕ = bit_and local.supported remote.supported in
        if not (bit_and (bit_or local.required remote.required) (complement capabilities) == 0)
        then err required_capability_unavailable
        else ok (record {
          version = version;
          capabilities = capabilities;
          max_frame = min local.max_frame remote.max_frame;
        }))

check_identity : {A : Type 0} → Result A ServiceIdentity → Result WireError (Unit {0})
check_identity (ok _) = ok tt
check_identity (err _) = err invalid_service_identity

-- `Hello::validate`.
unfoldable pub validate : Hello → Result WireError (Unit {0})
unfolding check_identity
validate hello = do
  guard (length hello.service_id == 16) service_uuid_length
  check_identity (Identity.new hello.service_id hello.application hello.profile hello.instance_name)
  guard (valid (terms_of hello)) invalid_offer

unfoldable pub same_service : Hello → Hello → Bool
same_service a b =
    same_bytes a.service_id b.service_id
    && same_bytes a.application b.application
    && same_bytes a.profile b.profile
    && same_bytes a.instance_name b.instance_name

unfoldable pub negotiate : Hello → Hello → Result WireError Agreement
negotiate local remote = do
  validate local
  validate remote
  guard (same_service local remote) service_mismatch
  agree (terms_of local) (terms_of remote)

-- The numbers of the module `capability`.
abbrev pub cap_health : ℕ
cap_health = 1

abbrev pub cap_drain : ℕ
cap_drain = 2

abbrev pub cap_handoff : ℕ
cap_handoff = 4

abbrev pub cap_application : ℕ
cap_application = 8

abbrev pub cap_watch : ℕ
cap_watch = 32

-- The match on the operation of a lifecycle message, HEALTH 1 to WATCH 8.
unfoldable pub lifecycle_capability : ℕ → Result WireError ℕ
lifecycle_capability operation =
    if operation == 1
    then ok cap_health
    else if operation == 2
    then ok cap_drain
    else if leb 3 operation && leb operation 7
    then ok cap_handoff
    else if operation == 8
    then ok cap_watch
    else err unknown_operation

by_kind : Option MessageKind → ℕ → Result WireError ℕ
by_kind (some MessageKind.application) operation =
    if not (operation == 0) then ok cap_application else err invalid_kind
by_kind (some lifecycle) operation = lifecycle_capability operation
by_kind none operation = err invalid_kind

unfoldable pub required_capability : Control → Result WireError ℕ
unfolding by_kind
required_capability message = by_kind message.kind message.operation

-- `Session::check`.
unfoldable pub check : Agreement → Control → Result WireError (Unit {0})
check agreement message = do
  needed ← required_capability message
  guard (not (bit_and needed agreement.capabilities == 0)) capability_not_negotiated

pub data Refused : Type 0 where
  protocol_too_old peer_rejected retiring : Refused

abbrev pub reason_of : Refused → Refusal
reason_of Refused.protocol_too_old = Refusal.protocol_too_old
reason_of Refused.peer_rejected = Refusal.peer_rejected
reason_of retiring = server_retiring

-- `Hello::default()` with a refusal.
abbrev pub refusal_hello : Refusal → Hello
refusal_hello reason = record {
  minimum = 0;
  maximum = 0;
  supported = 0;
  required = 0;
  max_frame = 0;
  application = [];
  profile = [];
  instance_name = [];
  service_id = [];
  reads_refusal = false;
  refusal = some reason;
}

abbrev pub is_ok {ℓ κ} : {E : Type ℓ} {A : Type κ} → Result E A → Bool
is_ok (ok _) = true
is_ok (err _) = false

-- `Refused::frame`.
unfoldable pub frame : Refused → Hello → Hello → Option Hello
frame reason offer remote =
    if (remote.reads_refusal && same_service offer remote) && is_ok (validate remote)
    then some (refusal_hello (reason_of reason))
    else none

unfoldable pub rejection : Hello → Hello → Option Hello
rejection offer remote =
    if ltb remote.maximum version || not (bit_and offer.required (complement remote.supported) == 0)
    then frame Refused.protocol_too_old offer remote
    else none

by_refusal : Option Refusal → Result WireError (Unit {0})
by_refusal (some not_refused) = ok tt
by_refusal (some reason) = err (refused reason)
by_refusal none = err unknown_refusal

unfoldable pub check_refusal : Hello → Result WireError (Unit {0})
unfolding by_refusal
check_refusal remote = by_refusal remote.refusal
