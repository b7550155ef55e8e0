-- ===== src/Kafka/Consumer/Batches.antt =====
-- internal/platform/kafka/consumer.go: which offsets a batch marks, and what the next batch does.
use mathlib.Core.List.{append_assoc, append-nil}
use sagaflow.Base.{
  ◌≡◌, refl, sym, ◌∙◌, ap, true, false, List, [], ◌∷◌, ◌++◌, eq_iff, arith, inl, inr, keep, any,
  keep-append, Bool-cases,
}
use sagaflow.Kafka.Wire.{KgoRecord}
use sagaflow.Kafka.Consumer.{
  Runtime, ConsumerConfig, Verdict, marked, unsettled, crashed, Client, settle_failure, handle,
  same_partition, batch_from, handle_batch,
}

abbrev pub of_partition : KgoRecord → List KgoRecord → List KgoRecord
of_partition p = keep (same_partition p)

any-same_partition :
    (p kr : KgoRecord) (l : List KgoRecord)
    → same_partition p kr ≡ true
    → any (same_partition p) l ≡ any (same_partition kr) l
unfolding any
any-same_partition p kr [] h = refl
any-same_partition p kr (q ∷ l) h =
    ground (arith, any-same_partition p kr l h, eq_iff p.topic kr.topic)

-- What a batch does to one partition: it marks an initial part of the partition's records, and none
-- if the partition is stalled.
record IsInitial (p : KgoRecord) (stalled new records : List KgoRecord) : Type 0 where
  none_if_stalled : any (same_partition p) stalled ≡ true → of_partition p new ≡ []
  rest : List KgoRecord
  initial : of_partition p records ≡ of_partition p new ++ rest

module _ (p kr : KgoRecord) (stalled new records : List KgoRecord) where
  skip-IsInitial :
      any (same_partition kr) stalled ≡ true
      → IsInitial p stalled new records
      → IsInitial p stalled new (kr ∷ records)
  unfolding keep
  skip-IsInitial h i = elim (Bool-cases (same_partition p kr)) [
    | inl same ↦
        let empty = i.none_if_stalled (any-same_partition p kr stalled same ∙ h) in
        record {
          none_if_stalled = i.none_if_stalled;
          rest = kr ∷ of_partition p records;
          initial = rw (same, empty);
        }
    | inr other ↦ record {
      none_if_stalled = i.none_if_stalled;
      rest = i.rest;
      initial = rw other i.initial;
    }
  ]

  mark-IsInitial :
      any (same_partition kr) stalled ≡ false
      → IsInitial p stalled new records
      → IsInitial p stalled (kr ∷ new) (kr ∷ records)
  unfolding keep
  mark-IsInitial h i = elim (Bool-cases (same_partition p kr)) [
    | inl same ↦ record {
      none_if_stalled = λ s. cc (s, h, any-same_partition p kr stalled same);
      rest = i.rest;
      initial = rw same (ap (λ l. kr ∷ l) i.initial);
    }
    | inr other ↦ record {
      none_if_stalled = λ s. rw other (i.none_if_stalled s);
      rest = i.rest;
      initial = rw other i.initial;
    }
  ]

  stall-IsInitial : IsInitial p (kr ∷ stalled) new records → IsInitial p stalled new (kr ∷ records)
  unfolding keep any
  stall-IsInitial i = elim (Bool-cases (same_partition p kr)) [
    | inl same ↦
        let empty : of_partition p new ≡ [] = i.none_if_stalled (rw same) in
        record {
          none_if_stalled = λ _. empty;
          rest = kr ∷ of_partition p records;
          initial = rw (same, empty);
        }
    | inr other ↦ record {
      none_if_stalled = λ s. i.none_if_stalled (rw other s);
      rest = i.rest;
      initial = rw other i.initial;
    }
  ]

module _ {S : Type 0} (rt : Runtime S) (cfg : ConsumerConfig) where
  -- What handling one record does to the marks.
  abbrev marks_after : Verdict → KgoRecord → List KgoRecord → List KgoRecord
  marks_after marked kr marks = marks ++ kr ∷ []
  marks_after unsettled kr marks = marks
  marks_after crashed kr marks = marks

  handle-marks :
      (kr : KgoRecord) (c : Client S)
      → (handle rt cfg kr c).1.marks ≡ marks_after (handle rt cfg kr c).0 kr c.marks
  unfolding handle settle_failure
  handle-marks kr c = ground arith

  -- One round of the batch, once its record's handling is known.
  batch_from-cons :
      (stalled records : List KgoRecord) (kr : KgoRecord) (c c' : Client S) (v : Verdict)
      → any (same_partition kr) stalled ≡ false
      → handle rt cfg kr c ≡ (v, c')
      → batch_from rt cfg stalled (kr ∷ records) c ≡ (elim v [
        | marked ↦ batch_from rt cfg stalled records c'
        | unsettled ↦ batch_from rt cfg (kr ∷ stalled) records c'
        | crashed ↦ (true, c')
      ])
  unfolding batch_from
  batch_from-cons stalled records kr c c' v tried e = ground arith

  abbrev Marks : List KgoRecord → List KgoRecord → Client S → Type 0
  Marks stalled records c =
      (new : List KgoRecord) × ((batch_from rt cfg stalled records c).1.marks ≡ c.marks ++ new)
      × ((p : KgoRecord) → IsInitial p stalled new records)

  batch_from-Marks : (stalled records : List KgoRecord) (c : Client S) → Marks stalled records c
  unfolding batch_from
  batch_from-Marks stalled [] c = (
    [],
    sym (append-nil c.marks),
    λ p. record {
      none_if_stalled = λ _. unfold keep in refl;
      rest = [];
      initial = unfold keep in refl;
    },
  )
  batch_from-Marks stalled (kr ∷ records) c = elim (Bool-cases (any (same_partition kr) stalled)) [
    | inl skipped ↦
        let (new, e, i) = batch_from-Marks stalled records c in
        (
          new,
          rw (skipped, batch_from) e,
          λ p. skip-IsInitial p kr stalled new records skipped (i p),
        )
    | inr tried ↦
        by_verdict (handle rt cfg kr c) refl tried (batch_from-Marks stalled records)
          (batch_from-Marks (kr ∷ stalled) records)
  ]
    where
      by_verdict :
          (h : Verdict × Client S)
          → handle rt cfg kr c ≡ h
          → any (same_partition kr) stalled ≡ false
          → ((c' : Client S) → Marks stalled records c')
          → ((c' : Client S) → Marks (kr ∷ stalled) records c')
          → Marks stalled (kr ∷ records) c
      by_verdict (marked, c') e tried next stall =
          let (new, q, i) = next c' in
          let m : c'.marks ≡ c.marks ++ kr ∷ [] = rw e at (handle-marks kr c) in
          (
            kr ∷ new,
            rw (batch_from-cons stalled records kr c c' marked tried e)
                (q ∙ ap (λ l. l ++ new) m ∙ append_assoc c.marks (kr ∷ []) new),
            λ p. mark-IsInitial p kr stalled new records tried (i p),
          )
      by_verdict (unsettled, c') e tried next stall =
          let (new, q, i) = stall c' in
          let m : c'.marks ≡ c.marks = rw e at (handle-marks kr c) in
          (
            new,
            rw (batch_from-cons stalled records kr c c' unsettled tried e)
                (q ∙ ap (λ l. l ++ new) m),
            λ p. stall-IsInitial p kr stalled new records (i p),
          )
      by_verdict (crashed, c') e tried next stall =
          let m : c'.marks ≡ c.marks = rw e at (handle-marks kr c) in
          (
            [],
            rw (batch_from-cons stalled records kr c c' crashed tried e)
                (m ∙ sym (append-nil c.marks)),
            λ p. record {
              none_if_stalled = λ _. unfold keep in refl;
              rest = of_partition p (kr ∷ records);
              initial = unfold keep in refl;
            },
          )

  -- In one batch, whatever fails and whatever panics, the records marked of a partition are an initial
  -- part of the partition's records: no offset is marked past a record that was not settled.
  pub handle_batch-marks :
      (records : List KgoRecord) (c : Client S)
      → (new : List KgoRecord) × ((handle_batch rt cfg records c).1.marks ≡ c.marks ++ new)
        × ((p : KgoRecord)
            → (rest : List KgoRecord) × (of_partition p records ≡ of_partition p new ++ rest))
  unfolding handle_batch
  handle_batch-marks records c =
      let (new, e, i) = batch_from-Marks [] records c in (new, e, λ p. ((i p).rest, (i p).initial))

  handle_batch-one :
      (kr : KgoRecord) (c : Client S) → (handle_batch rt cfg (kr ∷ []) c).1 ≡ (handle rt cfg kr c).1
  unfolding handle_batch batch_from any
  handle_batch-one kr c = ground arith

  -- Each batch starts with no partition stalled: after a batch that left a record unsettled, and so
  -- marked nothing of its partition, a batch with the next record of that partition marks it if its
  -- handling settles it. The offset then passes the record that was left.
  pub batch_passes_unsettled :
      (stuck later : KgoRecord) (c : Client S)
      → same_partition stuck later ≡ true
      → (handle rt cfg stuck c).0 ≡ unsettled
      → (handle rt cfg later (handle_batch rt cfg (stuck ∷ []) c).1).0 ≡ marked
      → let c₁ = (handle_batch rt cfg (stuck ∷ []) c).1 in
        let c₂ = (handle_batch rt cfg (later ∷ []) c₁).1 in
        (c₁.marks ≡ c.marks)
        × (of_partition stuck c₂.marks ≡ of_partition stuck c.marks ++ later ∷ [])
  batch_passes_unsettled stuck later c same left taken =
      let c₁ = (handle_batch rt cfg (stuck ∷ []) c).1 in
      let first : c₁.marks ≡ c.marks =
        ap (λ (d : Client S). d.marks) (handle_batch-one stuck c)
        ∙ rw left at (handle-marks stuck c) in
      let second : (handle_batch rt cfg (later ∷ []) c₁).1.marks ≡ c₁.marks ++ later ∷ [] =
        ap (λ (d : Client S). d.marks) (handle_batch-one later c₁)
        ∙ rw taken at (handle-marks later c₁) in
      (
        first,
        ap (of_partition stuck) (second ∙ ap (λ l. l ++ later ∷ []) first)
            ∙ keep-append (same_partition stuck) c.marks (later ∷ [])
            ∙ unfold keep in rw same,
      )
