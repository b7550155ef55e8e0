-- ===== src/Envelope.antt =====
-- internal/platform/envelope/envelope.go: CloudEvents attributes in Kafka headers. A Go
-- `map[string]string` is an association list with distinct keys.
pub mod Headers
pub mod RoundTrip
use sagaflow.Base.{String, ◌≡◌, Bool, true, false, List, [], ◌∷◌, ◌==◌, if◌then◌else◌, ℕ}
use sagaflow.Errors.{Result, ok, err, wrap, message, sentinel, missing_attribute, ◌>>=◌, ◌>>◌}
use Headers.{HeaderMap, get, put}

abbrev pub spec_version : String
spec_version = "1.0"

abbrev pub content_type : String
content_type = "application/protobuf"

pub record Envelope : Type 0 where
  pub id : String
  pub source : String
  pub type_name : String
  pub subject : String
  pub correlation_id : String
  pub causation_id : String
  pub trace_parent : String

-- The body of the loop over the optional attributes.
put_optional : String → String → HeaderMap → HeaderMap
put_optional key value h = if value == "" then h else put key value h

abbrev map_literal : Envelope → HeaderMap
map_literal e =
    ("ce_specversion", spec_version)
    ∷ ("ce_id", e.id)
    ∷ ("ce_source", e.source)
    ∷ ("ce_type", e.type_name)
    ∷ ("content-type", content_type)
    ∷ []

-- The order in which Go walks the four optional attributes is not fixed, and does not show in the
-- map: their keys differ.
unfoldable pub headers : Envelope → HeaderMap
unfolding put_optional
headers e = put_optional "traceparent" e.trace_parent (
    put_optional "ce_causationid" e.causation_id (
      put_optional "ce_correlationid" e.correlation_id
        (put_optional "ce_subject" e.subject (map_literal e))))

-- The loop over the required attributes.
unfoldable pub check_required : List (String × String) → Result (Unit {0})
check_required [] = ok tt
check_required ((key, value) ∷ rest) =
    if value == "" then err (wrap key (sentinel missing_attribute)) else check_required rest

abbrev pub read_envelope : HeaderMap → Envelope
read_envelope h = record {
  id = get h "ce_id";
  source = get h "ce_source";
  type_name = get h "ce_type";
  subject = get h "ce_subject";
  correlation_id = get h "ce_correlationid";
  causation_id = get h "ce_causationid";
  trace_parent = get h "traceparent";
}

abbrev required : Envelope → List (String × String)
required e = ("ce_id", e.id) ∷ ("ce_source", e.source) ∷ ("ce_type", e.type_name) ∷ []

unfoldable pub parse : HeaderMap → Result Envelope
unfolding check_required
parse h =
    let version = get h "ce_specversion" in
    let e = read_envelope h in
    if version == spec_version
    then (do check_required (required e); ok e)
    else if version == ""
    then err (wrap "ce_specversion" (sentinel missing_attribute))
    else err (message "envelope: unsupported ce_specversion")

-- `Message`: a body, its headers and the routing key.
pub record Message : Type 0 where
  pub topic : String
  pub key : String
  pub payload : List ℕ
  pub headers : HeaderMap

unfoldable pub validate : Message → Result (Unit {0})
validate m =
    if m.topic == ""
    then err (message "no topic")
    else if m.key == ""
    then err (message "no key")
    else elim m.payload [ [] ↦ err (message "no payload") | b ∷ bs ↦ ok tt ]
