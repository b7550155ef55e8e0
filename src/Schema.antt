-- ===== src/Schema.antt =====
-- internal/platform/schema: the subjects of the registry, the serde of a topic, and the registry's
-- compatibility level. `S` is the state of the registry and of the network to it.
pub mod Closed
pub mod Compatibility
pub mod Durable
use Prim.Native.String.{◌++◌ as concat}
use sagaflow.Base.{ℕ, String, ◌≡◌, Bool, true, false, List, [], ◌∷◌, ◌++◌, if◌then◌else◌}
use sagaflow.Errors.{
  Error, Result, ok, err, wrap, message, join, in_context, sentinel, subject_not_registered,
}
use sagaflow.Contracts.{ProtoMessage}
use sagaflow.Codec.{type_name}
use sagaflow.Database.{Bytes}
use sagaflow.Io.{Io, pure, fail, annotate, ◌>>=◌, ◌>>◌, continue}

-- sr.CompatibilityLevel; `other_level` is one of FORWARD, FULL and the transitive ones.
pub data Level : Type 0 where
  unset none backward other_level : Level

abbrev pub is_backward : Level → Bool
is_backward backward = true
is_backward _ = false

-- What the code calls of sr.Client. The two calls on the level answer once per registry URL.
pub record Registry (S : Type 0) : Type 0 where
  pub set_compatibility : Level → S → List (Result Level) × S
  pub compatibility : S → List (Result Level) × S
  pub schema_by_version : String → Io S ℕ
  pub create_schema : String → String → Io S ℕ

-- sr.Serde, as far as the code builds it: the registrations, each with its schema id and its type.
-- What `Encode` and `DecodeNew` do with them is the library's.
pub record Registered : Type 0 where
  pub id : ℕ
  pub type_name : String

pub record Framing : Type 0 where
  pub encode : List Registered → ProtoMessage → Result Bytes
  pub decode_new : List Registered → Bytes → Result ProtoMessage

pub record Serde : Type 0 where
  pub inner : List Registered
  pub topic : String

unfoldable pub subject : String → String → String
subject topic name = concat (concat topic "-") name

-- The first error, or the level that is reported last.
unfoldable pub global_level : Level → List (Result Level) → Result Level
global_level level [] = ok level
global_level level (err e ∷ results) = err e
global_level level (ok l ∷ results) = global_level l results

-- `register`, on the registrations so far.
unfoldable pub register : List Registered → ℕ → ProtoMessage → List Registered
register inner id prototype = inner ++ (record { id = id; type_name = type_name prototype }) ∷ []

abbrev unregistered : Error → Error
unregistered e = join (sentinel subject_not_registered) e

abbrev pub fail_closed : Result ℕ → Result ℕ
fail_closed (ok id) = ok id
fail_closed (err e) = err (unregistered e)

abbrev pub demand_backward : Level → Result (Unit {0})
demand_backward l =
    if is_backward l then ok tt else err (message "schema: global compatibility, want BACKWARD")

module _ {S : Type 0} (registry : Registry S) where
  open registry use {set_compatibility, compatibility, schema_by_version}

  -- A lookup that fails, for whatever reason, fails as a subject that is not registered.
  unfoldable pub resolve : String → Io S ℕ
  resolve s w = let (r, w') = schema_by_version s w in (fail_closed r, w')

  -- The loop of `NewTopicSerde` over the prototypes.
  unfoldable pub register_all :
      String → List ProtoMessage → List Registered → Io S (List Registered)
  unfolding subject
  register_all topic [] inner w = (ok inner, w)
  register_all topic (m ∷ ms) inner w =
      (do
        id ← resolve (subject topic (type_name m))
        λ w'. register_all topic ms (register inner id m) w')
        w

  unfoldable pub new_topic_serde : String → List ProtoMessage → Io S Serde
  new_topic_serde topic [] = fail (message "schema: NewTopicSerde needs at least one prototype")
  new_topic_serde topic (m ∷ ms) = do
    inner ← register_all topic (m ∷ ms) []
    pure (record { inner = inner; topic = topic })

  abbrev pub set_level : Io S Level
  set_level w = let (results, w') = set_compatibility backward w in (global_level unset results, w')

  abbrev pub read_level : Io S Level
  read_level w = let (results, w') = compatibility w in (global_level unset results, w')

  unfoldable pub ensure_backward_compatibility : Io S (Unit {0})
  ensure_backward_compatibility = do
    sent ← annotate "schema: set global BACKWARD compatibility" set_level
    level ← annotate "schema: read back global compatibility" read_level
    λ w. (demand_backward level, w)

-- `Encode` and `Decode`; what is decoded is a proto.Message, as every registration makes one.
module _ (framing : Framing) where
  unfoldable pub encode : Serde → ProtoMessage → Result Bytes
  encode s m = in_context "schema: encode" (framing.encode s.inner m)

  unfoldable pub decode : Serde → Bytes → Result ProtoMessage
  decode s b = in_context "schema: decode" (framing.decode_new s.inner b)
