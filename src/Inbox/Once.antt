-- ===== src/Inbox/Once.antt =====
-- internal/platform/inbox/inbox.go: a message is new once.
use sagaflow.Base.{
  String, ◌≡◌, refl, sym, ◌∙◌, ap, Bool, true, false, not, List, [], ◌∷◌, ◌++◌, ◌||◌, ◌==◌, any,
  inl, inr, Bool-cases, arith, eq_refl,
}
use sagaflow.Errors.{ok, err, ok-injective}
use sagaflow.Database.{Db, InboxRow, insert_inbox, consumed, perform, perform_all}
use sagaflow.Database.Streams.{perform_all-append}
use sagaflow.Session.{Session, Environment, view, write, arrive, statement}
use sagaflow.Session.Inversion.{statement-ok, annotate-ok, lift-ok}
use sagaflow.Inbox.{insert_mark, mark_consumed}

consumed-last :
    (rows : List InboxRow) (r : InboxRow)
    → consumed r.consumer r.source r.event_id (rows ++ r ∷ []) ≡ true
unfolding any
consumed-last [] r = rw (eq_refl r.consumer, eq_refl r.source, eq_refl r.event_id) refl
consumed-last (q ∷ rows) r = ground (arith, consumed-last rows r)

module _ (env : Environment) (consumer source id : String) where
  inserted_mark :
      (s t : Session) (first : Bool)
      → insert_mark consumer source id s ≡ (ok first, t)
      → (first ≡ not (consumed consumer source id (view s).inbox))
        × (consumed consumer source id (view t).inbox ≡ true)
  unfolding insert_mark perform perform_all
  inserted_mark s t first h = elim (Bool-cases (consumed consumer source id (view s).inbox)) [
    | inl old ↦
        let (e, same) = lift-ok (ok false) s t first (rw old at h) in
        (rw old (sym (ok-injective e)), rw same old)
    | inr new ↦
        let r : InboxRow = record {
          consumer = consumer;
          source = source;
          event_id = id;
          handled_at = s.started;
        } in
        let (e, same) = lift-ok (ok true) (write (insert_inbox r ∷ []) s) t first (rw new at h) in
        (
          rw new (sym (ok-injective e)),
          rw same (
              ap (λ (d : Db). consumed consumer source id d.inbox)
                (perform_all-append s.committed s.pending (insert_inbox r ∷ []))
              ∙ consumed-last (view s).inbox r),
        )
  ]

  -- Where `MarkConsumed` succeeds, it says that the message is new exactly if the transaction saw no
  -- row of it, and afterwards the transaction sees one, so that it is not new again.
  mark_consumed_once :
      (s t : Session) (first : Bool)
      → mark_consumed env consumer source id s ≡ (ok first, t)
      → (first ≡ not (consumed consumer source id (view (arrive env s)).inbox))
        × (consumed consumer source id (view t).inbox ≡ true)
  unfolding mark_consumed
  mark_consumed_once s t first h = elim (Bool-cases (consumer == "" || source == "" || id == "")) [
    | inl bad ↦ let no = lift-ok (err _) s t first (rw bad at h) in cc
    | inr good ↦ inserted_mark (arrive env s) t first (
        statement-ok env (insert_mark consumer source id) s t first (
          annotate-ok "inbox" (statement env (insert_mark consumer source id)) s t first
            (rw good at h)))
  ]
