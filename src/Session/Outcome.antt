-- ===== src/Session/Outcome.antt =====
-- The two endings of `TransitionSession`: a preview, or a move.
use miniclass.Base.{
  ◌≡◌, refl, sym, ap, ◌∙◌, subst, ltb, Bool, true, false, not, ◌&&◌, ◌||◌, List, ◌∷◌, ◌⊎◌, inl, inr,
  some, if◌then◌else◌, Time, arith, length, map,
}
use miniclass.Base.Text.{is_blank}
use miniclass.Session.{Session}
use miniclass.Session.Lifecycle.{SessionTransitionPlan}
use miniclass.Session.Graph.{stage}
use miniclass.Session.Transition.{
  SessionTransitionInput, SessionTransitionResult, session_transition_plan,
  load_session_transition_dates, Preview, apply_forward, shown, preview_body, reopened,
  transition_entry, transition_body, after_preview, transition_session,
}
use miniclass.Session.Moves.{Allowed, Moved, plan-Allowed, reopened-eq, lifecycle-eq}
use miniclass.Store.Rows.{Actor, Db}
use miniclass.Store.Tx.{
  Error, transition_reason_required, Result, ok, err, TxState, begin_tx, nobody, stored,
  record_audit, in_tenant, in_tenant_read, result_of,
}
use miniclass.Store.Audit.{record_audit-eq, record_audit-frame}
use miniclass.Store.Steps.{bind_rule, found_rule, guard_rule, pure_inj}
use miniclass.Store.Atomic.{in_tenant_commits}
use miniclass.Store.Queries.{get_session, get_session_for_update, update_session_lifecycle}

reason-given : (b c : Bool) → not (b && c) ≡ true → b ≡ true → c ≡ false
reason-given b c h e = ground arith

-- The session is written twice, and the log once.
rest-eq :
    (before reopened moved after : Db) (row : Session)
    → reopened ≡ record before { session = reopened.session }
    → moved ≡ record reopened { session = moved.session }
    → after ≡ record moved { audit_log = after.audit_log }
    → moved.session ≡ some row
    → after ≡ record before { session = some row; audit_log = after.audit_log }
rest-eq before reopened moved after row e f g h = ground arith

transition_body-Moved :
    (now : Time) (input : SessionTransitionInput) (s s' : TxState)
    (result : SessionTransitionResult)
    → transition_body now input s ≡ ok (result, s')
    → Moved now input s.db s'.db result × (result.applied ≡ true)
unfolding transition_body get_session_for_update get_session load_session_transition_dates
transition_body-Moved now input s s' result h = found_rule s.db.session _ s _ h λ row found k1.
    bind_rule (session_transition_plan now row input s) _ k1 λ plan s1 e2 k2.
      guard_rule (not (plan.backward && is_blank input.reason)) transition_reason_required s1 _ k2
        λ e3 k3. bind_rule (reopened now row input s1) _ k3 λ current s2 e4 k4.
          bind_rule
            (update_session_lifecycle input.next_state
              (current.draft_assignments_stale || plan.mark_draft_assignments_stale) s2)
            _ k4
            λ updated s3 e5 k5.
              bind_rule (record_audit (transition_entry updated input.reason) s3) _ k5 λ _ s4 e6 k6.
                let (at1, allowed) = plan-Allowed now row input s s1 plan e2 in
                let (found2, current_eq, future, same2) =
                  reopened-eq now row current input s1 s2 (ap (λ u. u.db.session) at1 ∙ found) e4 in
                let (found3, updated_eq, same3) =
                  lifecycle-eq _ _ current updated s2 s3 found2 e5 in
                let (_, _, log) = record_audit-eq (transition_entry updated input.reason) s3 e6 in
                let same4 = record_audit-frame (transition_entry updated input.reason) s3 e6 in
                let (same, at4) = pure_inj k6 in
                let returned = ap (λ r. r.session) same in
                (
                  record {
                    row = row;
                    of_row = found;
                    plan = plan;
                    allowed = allowed;
                    has_reason = reason-given plan.backward (is_blank input.reason) e3;
                    future = future;
                    returned = returned ∙ updated_eq ∙ rw current_eq;
                    same_rest =
                        rw (at4, returned)
                          (rest-eq s.db s2.db s3.db s4.db updated
                            (subst (λ u. s2.db ≡ record (u.db) { session = s2.db.session }) at1
                              same2)
                            same3 same4 found3);
                    logged =
                        rw (at4, log, returned)
                          (ap
                            (λ l.
                              stored (transition_entry updated input.reason) ∷ map (λ a. a.entry) l)
                            (ap (λ d. d.audit_log) same3
                              ∙ (ap (λ d. d.audit_log) same2 ∙ ap (λ u. u.db.audit_log) at1)));
                  },
                  ap (λ r. r.applied) same,
                )

-- The preview of a backward move.
pub record Previewed (now : Time) (input : SessionTransitionInput) (before : Db)
    (result : SessionTransitionResult) : Type 0 where
  pub row : Session
  pub of_row : before.session ≡ some row
  pub plan : SessionTransitionPlan
  pub allowed : Allowed now (length before.offerings) row input plan
  pub unconfirmed : input.confirm ≡ false
  pub earlier : ltb (stage input.next_state) (stage row.state) ≡ true
  pub not_applied : (result.applied ≡ false) × (result.requires_confirmation ≡ true)
  pub unchanged : result.session ≡ row

preview-shown :
    (now : Time) (input : SessionTransitionInput) (s s' : TxState)
    (result : SessionTransitionResult)
    → input.confirm ≡ false
    → preview_body now input s ≡ ok (shown result, s')
    → Previewed now input s.db result
unfolding preview_body get_session load_session_transition_dates
preview-shown now input s s' result unconfirmed h = found_rule s.db.session _ s _ h λ row found k1.
    bind_rule (session_transition_plan now row input s) _ k1 λ plan s1 e2 k2.
      let (at1, allowed) = plan-Allowed now row input s s1 plan e2 in
      go row found plan allowed s1.db.meeting_dates plan.backward refl (pure_inj k2).0
  where
    go :
        (row : Session)
        → s.db.session ≡ some row
        → (plan : SessionTransitionPlan) → Allowed now (length s.db.offerings) row input plan
        → (dates : List Time) (b : Bool) → plan.backward ≡ b
        → shown result ≡ (
            if not b
            then apply_forward
            else shown (record {
              session = row;
              meeting_dates = dates;
              from_state = plan.from_state;
              to_state = plan.to_state;
              requires_confirmation = true;
              applied = false;
              warnings = plan.warnings;
            }))
        → Previewed now input s.db result
    go row found plan allowed dates true e k = record {
      row = row;
      of_row = found;
      plan = plan;
      allowed = allowed;
      unconfirmed = unconfirmed;
      earlier = sym allowed.is_backward ∙ e;
      not_applied = (ground arith, ground arith);
      unchanged = ground arith;
    }
    go row found plan allowed dates false e k = absurd (ground arith)

change-outcome :
    (actor : Actor) (now : Time) (input : SessionTransitionInput) (db : Db)
    (result : SessionTransitionResult)
    → (in_tenant actor (transition_body now input) db).0 ≡ ok result
    → Moved now input db (in_tenant actor (transition_body now input) db).1 result
      × (result.applied ≡ true)
change-outcome actor now input db result h =
    let (s, ran, ends, _, _) = in_tenant_commits actor (transition_body now input) db result h in
    subst (λ after. Moved now input db after result × (result.applied ≡ true)) (sym ends)
      (transition_body-Moved now input (begin_tx db actor false) s result ran)

-- A transition that succeeds is one of two. Applied, it made a legal move whose conditions hold, with
-- a reason if it goes back, and it changed nothing but the session and the log. Not applied, it was
-- asked to go back without confirmation, shows the session as it is, and changed nothing.
pub transition_session-outcome :
    (actor : Actor) (now : Time) (input : SessionTransitionInput) (db : Db)
    (result : SessionTransitionResult)
    → (transition_session actor now input db).0 ≡ ok result
    → (Moved now input db (transition_session actor now input db).1 result
        × (result.applied ≡ true))
      ⊎ (Previewed now input db result × ((transition_session actor now input db).1 ≡ db))
unfolding transition_session in_tenant_read
transition_session-outcome actor now input db result h =
    go input.confirm refl (preview_body now input (begin_tx db nobody true)) refl h
  where
    ok_inj :
        {a b : SessionTransitionResult}
        → ◌≡◌ {A = Result SessionTransitionResult} (ok a) (ok b)
        → a ≡ b
    ok_inj e = cc

    ok_err :
        {x : Error} {b : SessionTransitionResult}
        → ◌≡◌ {A = Result SessionTransitionResult} (err x) (ok b)
        → ⊥
    ok_err e = cc

    change : Result SessionTransitionResult × Db
    change = in_tenant actor (transition_body now input) db

    go :
        (b : Bool)
        → input.confirm ≡ b
        → (r : Result (Preview × TxState)) → preview_body now input (begin_tx db nobody true) ≡ r
        → (if b then change else after_preview (result_of r) change db).0 ≡ ok result
        → (Moved now input db (if b then change else after_preview (result_of r) change db).1 result
            × (result.applied ≡ true))
          ⊎ (Previewed now input db result
              × ((if b then change else after_preview (result_of r) change db).1 ≡ db))
    go true e r f k = inl (change-outcome actor now input db result k)
    go false e (ok (apply_forward, s)) f k = inl (change-outcome actor now input db result k)
    go false e (ok (shown shown_result, s)) f k = inr (
      preview-shown now input (begin_tx db nobody true) s result e
          (f ∙ ap (λ x. ok (shown x, s)) (ok_inj k)),
      refl,
    )
    go false e (err x) f k = absurd (ok_err k)
