-- ===== src/Staleness/Tests.antt =====
-- A session that went back from assigning, and one step of its life.
use miniclass.Base.{◌≡◌, refl, inl, true, false, [], ◌∷◌, none, some}
use miniclass.Session.{Session, assigning, voting_closed}
use miniclass.Session.Lifecycle.{plan_session_transition}
use miniclass.Session.Transition.{
  SessionTransitionInput, SessionTransitionResult, transition_session,
}
use miniclass.Store.Rows.{Db}
use miniclass.Store.Tx.{ok, in_tenant, record_audit}
use miniclass.Store.Queries.{get_session_for_update, count_offerings, update_session_lifecycle}
use miniclass.Samples.{db_in, organizer, session_in, value}
use miniclass.Staleness.{
  transitioned, Reach, here, then, StaleDraft, stale_never_published, backward-StaleDraft,
}

abbrev back : SessionTransitionInput
back = record {
  next_state = voting_closed;
  confirm = true;
  reason = 111 ∷ [];
  voting_deadline = none;
}

abbrev again : SessionTransitionInput
again = record back { next_state = assigning }

abbrev untouched : SessionTransitionResult
untouched = record {
  session = session_in assigning;
  meeting_dates = [];
  from_state = assigning;
  to_state = assigning;
  requires_confirmation = false;
  applied = false;
  warnings = [];
}

abbrev back_result : SessionTransitionResult
back_result = value untouched (transition_session organizer 50 back (db_in assigning)).0

back_ok : (transition_session organizer 50 back (db_in assigning)).0 ≡ ok back_result
unfolding transition_session in_tenant get_session_for_update count_offerings
    plan_session_transition update_session_lifecycle record_audit
back_ok = refl

back_applied : back_result.applied ≡ true
unfolding transition_session in_tenant get_session_for_update count_offerings
    plan_session_transition update_session_lifecycle record_audit
back_applied = refl

backward-StaleDraft_example : StaleDraft (transition_session organizer 50 back (db_in assigning)).1
backward-StaleDraft_example =
    backward-StaleDraft organizer 50 back (db_in assigning) (session_in assigning) back_result refl
      (inl (refl, refl)) back_ok back_applied

-- The sample session after it went back.
abbrev stale_session : Session
stale_session = record (session_in voting_closed) { draft_assignments_stale = true }

abbrev stale_db : Db
stale_db = record (db_in voting_closed) { session = some stale_session }

stale_db-StaleDraft : StaleDraft stale_db
stale_db-StaleDraft = record {
  row = stale_session;
  of_row = refl;
  stale = refl;
  not_published = λ e. cc;
  not_complete = λ e. cc;
}

abbrev again_result : SessionTransitionResult
again_result = value untouched (transition_session organizer 50 again stale_db).0

again_ok : (transition_session organizer 50 again stale_db).0 ≡ ok again_result
unfolding transition_session in_tenant get_session_for_update count_offerings
    plan_session_transition update_session_lifecycle record_audit
again_ok = refl

again_reached : Reach stale_db (transition_session organizer 50 again stale_db).1
again_reached =
    then stale_db _ _ (transitioned organizer 50 again stale_db again_result again_ok) (here _)

stale_never_published_example : StaleDraft (transition_session organizer 50 again stale_db).1
stale_never_published_example = stale_never_published stale_db _ stale_db-StaleDraft again_reached
