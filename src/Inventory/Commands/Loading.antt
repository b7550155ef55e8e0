-- ===== src/Inventory/Commands/Loading.antt =====
-- internal/inventory/store.go: what a seat's stream reads as, and that the version of the state read
-- is the length of the stream.
use sagaflow.Base.{suc, ◌+◌, String, ◌≡◌, refl, ◌∙◌, ap, List, [], ◌∷◌, arith, length, inl, inr}
use sagaflow.Errors.{Result, ok, err, ◌>>=◌, Result-cases, ok-injective}
use sagaflow.Contracts.{ProtoMessage, Timestamps}
use sagaflow.Database.{EventRow, stream_of}
use sagaflow.Database.Order.{order_by}
use sagaflow.Database.Streams.{by_version, IsSequential, order_by-sequential}
use sagaflow.Session.{Session, Environment, lift, arrive, statement, view, in_context}
use sagaflow.Session.Inversion.{tx-ok, lift-ok, statement-ok, in_context-ok}
use sagaflow.EventStore.{load, select_stream}
use sagaflow.Codec.{Meta, no_meta, Json, decode}
use sagaflow.EventStore.Rows.{Recorded, read_row, read_rows}
use sagaflow.Seat.{SeatState, zero_seat, apply, fold_from, fold}
use sagaflow.Inventory.Store.{decode_all, last_meta, load_seat}

-- Inversion of a chain that succeeds.
pub chain-ok {ℓ} :
    {A B : Type ℓ} (r : Result A) (f : A → Result B) (b : B)
    → (r >>= f) ≡ ok b
    → (a : A) × (r ≡ ok a) × (f a ≡ ok b)
chain-ok (ok a) f b h = (a, refl, h)
chain-ok (err e) f b h = cc

module _ (json : Json) where
  length-read_rows :
      (rows : List EventRow) (rs : List Recorded)
      → read_rows json rows ≡ ok rs
      → length rs ≡ length rows
  unfolding read_rows
  length-read_rows [] rs h = ground arith
  length-read_rows (r ∷ rows) rs h =
      let (e, he, k) = chain-ok (read_row json r) _ rs h in
      let (es, hes, last) = chain-ok (read_rows json rows) _ rs k in
      ground (arith, length-read_rows rows es hes)

  length-decode_all :
      (rs : List Recorded) (ms : List ProtoMessage)
      → decode_all json rs ≡ ok ms
      → length ms ≡ length rs
  unfolding decode_all
  length-decode_all [] ms h = ground arith
  length-decode_all (r ∷ rs) ms h =
      let (m, hm, k) = chain-ok (in_context "inventory: decode" (decode json r.event)) _ ms h in
      let (rest, hr, last) = chain-ok (decode_all json rs) _ ms k in
      ground (arith, length-decode_all rs rest hr)

module _ (ts : Timestamps) where
  version-apply :
      (s s' : SeatState) (m : ProtoMessage) → apply ts s m ≡ ok s' → s'.version ≡ suc s.version
  unfolding apply
  version-apply s s' m h = ground arith

  version-fold_from :
      (s s' : SeatState) (ms : List ProtoMessage)
      → fold_from ts s ms ≡ ok s'
      → s'.version ≡ s.version + length ms
  unfolding fold_from
  version-fold_from s s' [] h = ground arith
  version-fold_from s s' (m ∷ ms) h = elim (Result-cases (apply ts s m)) [
    | inl (t, e) ↦
        let next : fold_from ts t ms ≡ ok s' = rw (e, fold_from) at h in
        omega (arith, version-apply s t m e, version-fold_from t s' ms next)
    | inr (x, e) ↦ let no_state : err _ ≡ ok s' = rw (e, fold_from) at h in cc
  ]

module _ (json : Json) (ts : Timestamps) where
  -- The state of a stream and the metadata of its last event, as `LoadSeat` reads them off the rows.
  unfoldable pub read_seat : List EventRow → Result (SeatState × Meta)
  read_seat rows =
      in_context "eventstore: load" (read_rows json (order_by by_version rows)) >>= λ rs.
      decode_all json rs >>= λ ms. fold ts ms >>= λ state. ok (state, last_meta no_meta rs)

  -- A state that is read off a sequential stream has the length of the stream for its version.
  pub version-read_seat :
      (rows : List EventRow) (state : SeatState) (origin : Meta)
      → IsSequential 0 rows
      → read_seat rows ≡ ok (state, origin)
      → state.version ≡ length rows
  unfolding read_seat fold
  version-read_seat rows state origin sequential h =
      let (rs, hr, k) =
        chain-ok (in_context "eventstore: load" (read_rows json (order_by by_version rows))) _
          (state, origin) h in
      let (ms, hm, k₁) = chain-ok (decode_all json rs) _ (state, origin) k in
      let (state', f, last) = chain-ok (fold ts ms) _ (state, origin) k₁ in
      let same : state' ≡ state = ap (λ (p : SeatState × Meta). p.0) (ok-injective last) in
      let read : read_rows json rows ≡ ok rs =
        in_context-ok "eventstore: load" (read_rows json rows) rs
          (rw (order_by-sequential 0 rows sequential) at hr) in
      omega (
        arith,
        length-read_rows json rows rs read,
        length-decode_all json rs ms hm,
        version-fold_from ts zero_seat state' ms f,
        ap (λ (x : SeatState). x.version) same,
      )

  module _ (env : Environment) where
    -- What `LoadSeat` returns is what the rows that its one statement sees read as.
    pub load_seat-ok :
        (seat : String) (s t : Session) (state : SeatState) (m : Meta)
        → load_seat json ts env seat s ≡ (ok (state, m), t)
        → (t ≡ arrive env s) × (read_seat (stream_of seat (view t).events) ≡ ok (state, m))
    unfolding load_seat load read_seat
    load_seat-ok seat s t state m h =
        let (recorded, s₁, h₁, k₁) = tx-ok (load json env seat) _ s t (state, m) h in
        let (rows, s₀, h₀, k₀) =
          tx-ok (λ u. statement env (select_stream json env seat) u) _ s s₁ recorded h₁ in
        let (e₀, t₀) =
          lift-ok _ (arrive env s) s₀ rows
            (statement-ok env (select_stream json env seat) s s₀ rows h₀) in
        let (e₁, t₁) = lift-ok _ s₀ s₁ recorded k₀ in
        let (msgs, s₂, h₂, k₂) = tx-ok (lift (decode_all json recorded)) _ s₁ t (state, m) k₁ in
        let (e₂, t₂) = lift-ok _ s₁ s₂ msgs h₂ in
        let (state', s₃, h₃, k₃) = tx-ok (lift (fold ts msgs)) _ s₂ t (state, m) k₂ in
        let (e₃, t₃) = lift-ok _ s₂ s₃ state' h₃ in
        let (e₄, t₄) = lift-ok _ s₃ t (state, m) k₃ in
        let here : t ≡ arrive env s = t₄ ∙ t₃ ∙ t₂ ∙ t₁ ∙ t₀ in
        (
          here,
          rw here (
              ap
                (λ r. in_context "eventstore: load" (read_rows json r) >>= λ rs.
                  decode_all json rs >>= λ ms. fold ts ms >>= λ x. ok (x, last_meta no_meta rs))
                (ok-injective e₀)
              ∙ rw e₁ (rw e₂ (rw e₃ e₄))),
        )
