-- ===== src/Errors.antt =====
-- Go's error values, for `errors.Is`: a chain of wraps round a sentinel or a plain text. Only the
-- constant part of a message is kept; what `fmt` interpolates into it is not modelled.
use sagaflow.Base.{String, ap, Bool, true, false, ◌≡◌, refl, ◌||◌, ◌⊎◌, inl, inr}

-- The package-level `var Err… = errors.New(…)` values that some caller tests for or wraps.
pub data Sentinel : Type 0 where
  unknown_event : Sentinel  -- inventory.ErrUnknownEvent
  unknown_command : Sentinel  -- inventory.ErrUnknownCommand
  version_conflict : Sentinel  -- eventstore.ErrVersionConflict
  missing_attribute : Sentinel  -- envelope.ErrMissingAttribute
  unknown_type : Sentinel  -- codec.ErrUnknownType
  subject_not_registered : Sentinel  -- schema.ErrSubjectNotRegistered
  permanent : Sentinel  -- kafka.ErrPermanent
  canceled : Sentinel  -- context.Canceled
  topic_already_exists : Sentinel  -- kerr.TopicAlreadyExists

pub Sentinel-discrete : Discrete Sentinel
Sentinel-discrete = hlevel

pub data Error : Type 0 where
  sentinel : Sentinel → Error
  message : String → Error  -- errors.New, or fmt.Errorf with no %w
  wrap : String → Error → Error  -- fmt.Errorf with one %w
  join : Error → Error → Error  -- fmt.Errorf("%w: %w", …)

pub data Result {ℓ} (A : Type ℓ) : Type ℓ where
  ok : A → Result A
  err : Error → Result A

infixl 5 ◌>>=◌ ◌>>◌
abbrev pub ◌>>=◌ {ℓ κ} : {A : Type ℓ} {B : Type κ} → Result A → (A → Result B) → Result B
◌>>=◌ (err e) next = err e
◌>>=◌ (ok a) next = next a

abbrev pub ◌>>◌ {ℓ} : {B : Type ℓ} → Result (Unit {0}) → Result B → Result B
first >> next = first >>= λ _. next

abbrev pub same_sentinel : Sentinel → Sentinel → Bool
same_sentinel unknown_event unknown_event = true
same_sentinel unknown_command unknown_command = true
same_sentinel version_conflict version_conflict = true
same_sentinel missing_attribute missing_attribute = true
same_sentinel unknown_type unknown_type = true
same_sentinel subject_not_registered subject_not_registered = true
same_sentinel permanent permanent = true
same_sentinel canceled canceled = true
same_sentinel topic_already_exists topic_already_exists = true
same_sentinel _ _ = false

-- errors.Is
unfoldable pub errors_is : Error → Sentinel → Bool
errors_is (sentinel t) s = same_sentinel t s
errors_is (message text) s = false
errors_is (wrap text e) s = errors_is e s
errors_is (join d e) s = errors_is d s || errors_is e s

module _ {ℓ} {A : Type ℓ} where
  pub Result-cases : (r : Result A) → ((a : A) × (r ≡ ok a)) ⊎ ((e : Error) × (r ≡ err e))
  Result-cases (ok a) = inl (a, refl)
  Result-cases (err e) = inr (e, refl)

  abbrev from_ok : A → Result A → A
  from_ok d (ok a) = a
  from_ok d (err e) = d

  pub ok-injective : {a b : A} → ok a ≡ ok b → a ≡ b
  ok-injective {a} h = ap (from_ok a) h

-- The text that an error is wrapped with.
abbrev pub in_context {ℓ} : {A : Type ℓ} → String → Result A → Result A
in_context text (ok a) = ok a
in_context text (err e) = err (wrap text e)
