-- ===== src/Envelope/RoundTrip.antt =====
-- internal/platform/envelope/envelope.go: `Headers` and `Parse` together.
use sagaflow.Base.{
  String, ◌≡◌, ◌≢◌, refl, ◌==◌, eq_iff, if◌then◌else◌, arith, ◌↔◌, sym, subst, inl, inr,
}
use sagaflow.Errors.{ok, Result-cases}
use sagaflow.Envelope.Headers.{HeaderMap, get, has, IsMap, put-IsMap, get-put}
use sagaflow.Envelope.{
  Envelope, spec_version, headers, put_optional, map_literal, read_envelope, required,
  check_required, parse,
}

get-put_optional :
    (k v : String) (h : HeaderMap) (j : String)
    → get (put_optional k v h) j ≡ (if k == j then (if v == "" then get h j else v) else get h j)
unfolding put_optional
get-put_optional k v h j = ground (arith, get-put k v h j)

put_optional-IsMap : (k v : String) (h : HeaderMap) → IsMap h → IsMap (put_optional k v h)
unfolding put_optional
put_optional-IsMap k v h m = ground (arith, put-IsMap k v h m)

-- The rendered headers are a map: no key stands twice.
pub headers-IsMap : (e : Envelope) → IsMap (headers e)
unfolding headers has
headers-IsMap e =
    let base : IsMap (map_literal e) = (refl, (refl, (refl, (refl, (refl, tt))))) in
    search put_optional-IsMap

present : (v : String) → (if v == "" then "" else v) ≡ v
present v = ground (arith, eq_iff v "")

pub read_envelope-headers : (e : Envelope) → read_envelope (headers e) ≡ e
unfolding headers get
read_envelope-headers e = simp (get-put_optional, present)

get-headers_version : (e : Envelope) → get (headers e) "ce_specversion" ≡ spec_version
unfolding headers get
get-headers_version e = simp get-put_optional

abbrev pub IsNamed : Envelope → Type 0
IsNamed e = (e.id ≢ "") × (e.source ≢ "") × (e.type_name ≢ "")

check_required-named : (e : Envelope) → IsNamed e → check_required (required e) ≡ ok tt
unfolding check_required
check_required-named e (i, s, t) =
    ground (arith, eq_iff e.id "", eq_iff e.source "", eq_iff e.type_name "")

IsNamed-check_required : (e : Envelope) → check_required (required e) ≡ ok tt → IsNamed e
unfolding check_required
IsNamed-check_required e h = (
  λ p. ground (arith, eq_iff e.id ""),
  λ p. ground (arith, eq_iff e.source ""),
  λ p. ground (arith, eq_iff e.type_name ""),
)

parse-eq_ok_inv :
    (h : HeaderMap) (e : Envelope)
    → parse h ≡ ok e
    → (get h "ce_specversion" ≡ spec_version)
      × (e ≡ read_envelope h)
      × (check_required (required (read_envelope h)) ≡ ok tt)
unfolding parse
parse-eq_ok_inv h e p = elim (Result-cases (check_required (required (read_envelope h)))) [
  | inl (u, c) ↦ ground (arith, c, eq_iff (get h "ce_specversion") spec_version)
  | inr (x, c) ↦ ground (arith, c)
]

accepted :
    (h : HeaderMap) (e : Envelope)
    → (parse h ≡ ok e) ↔ (
        (get h "ce_specversion" ≡ spec_version) × (e ≡ read_envelope h) × IsNamed (read_envelope h))
unfolding parse
accepted h e = (
  λ p. let (v, r, c) = parse-eq_ok_inv h e p in (v, r, IsNamed-check_required (read_envelope h) c),
  λ (v, r, n). ground (
    arith,
    check_required-named (read_envelope h) n,
    eq_iff (get h "ce_specversion") spec_version,
  ),
)

-- The attributes of CloudEvents, by their header keys: an attribute without a header is empty.
pub record Says (h : HeaderMap) (e : Envelope) : Type 0 where
  pub id : get h "ce_id" ≡ e.id
  pub source : get h "ce_source" ≡ e.source
  pub type_name : get h "ce_type" ≡ e.type_name
  pub subject : get h "ce_subject" ≡ e.subject
  pub correlation_id : get h "ce_correlationid" ≡ e.correlation_id
  pub causation_id : get h "ce_causationid" ≡ e.causation_id
  pub trace_parent : get h "traceparent" ≡ e.trace_parent

Says-read_envelope : (h : HeaderMap) → Says h (read_envelope h)
Says-read_envelope h = record {
  id = refl;
  source = refl;
  type_name = refl;
  subject = refl;
  correlation_id = refl;
  causation_id = refl;
  trace_parent = refl;
}

read_envelope-Says : (h : HeaderMap) (e : Envelope) → Says h e → e ≡ read_envelope h
read_envelope-Says h e s = λ i. record {
  id = (sym s.id) i;
  source = (sym s.source) i;
  type_name = (sym s.type_name) i;
  subject = (sym s.subject) i;
  correlation_id = (sym s.correlation_id) i;
  causation_id = (sym s.causation_id) i;
  trace_parent = (sym s.trace_parent) i;
}

-- Headers are parsed to an envelope exactly when they say version 1.0, each of the envelope's seven
-- attributes is the text under its own key, ce_id, ce_source, ce_type, ce_subject, ce_correlationid,
-- ce_causationid or traceparent, and the id, the source and the type are not empty.
pub parse-eq_ok :
    (h : HeaderMap) (e : Envelope)
    → (parse h ≡ ok e) ↔ ((get h "ce_specversion" ≡ spec_version) × Says h e × IsNamed e)
parse-eq_ok h e = (
  λ p.
      let (v, r, n) = (accepted h e).0 p in
      (v, subst (Says h) (sym r) (Says-read_envelope h), subst IsNamed (sym r) n),
  λ (v, s, n). let r = read_envelope-Says h e s in (accepted h e).1 (v, r, subst IsNamed r n),
)

-- An envelope that is rendered is read back as it was, exactly if it has an id, a source and a type.
pub parse-headers : (e : Envelope) → (parse (headers e) ≡ ok e) ↔ IsNamed e
parse-headers e = (
  λ p. subst IsNamed (read_envelope-headers e) ((accepted (headers e) e).0 p).2,
  λ n. (accepted (headers e) e).1 (
    get-headers_version e,
    sym (read_envelope-headers e),
    subst IsNamed (sym (read_envelope-headers e)) n,
  ),
)
