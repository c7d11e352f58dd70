-- ===== src/Solver/Rerun.antt =====
-- `Rerun` and `Get` of backend/internal/solver/service.go, with `Fingerprint` of
-- backend/internal/solvercontract/contract.go.
use miniclass.Base.{
  ℕ, ◌==◌, ◌≡◌, refl, ap, ◌∙◌, Bool, true, false, not, none, some, find_first, if◌then◌else◌, Xid,
  arith, eq_of_==, Bool-cases, inl, inr,
}
use miniclass.Base.Int.{ℤ}
use miniclass.Store.Rows.{Actor, SolveRun, Db}
use miniclass.Store.Tx.{
  Error, no_rows, fingerprint_mismatch, Result, ok, err, Tx, TxState, found, in_tenant_read,
  record_audit,
}
use miniclass.Store.Steps.{bind_rule, found_rule, pure_inj}
use miniclass.Store.Atomic.{in_tenant_commits}
use miniclass.Store.Queries.{get_session, get_session_for_update}
use miniclass.Solver.Contract.{Request, canonicalize}
use miniclass.Solver.Response.{Response}
use miniclass.Solver.Start.{
  StartInput, application_status, create_solve_run, run_row, apply_run, apply_if, run_entry,
  start_body, Prepared, accept, with_response, with_raw, with_request, prepare, start_prepared,
  start, validate_successful_response,
}
use miniclass.Solver.Outcome.{create-eq}

unfoldable pub find_run : Xid → Tx SolveRun
find_run id s = found (find_first (λ r. r.id == id) s.db.solve_runs) no_rows s

unfoldable pub get_run : Xid → Db → Result SolveRun
unfolding find_run
get_run id db = in_tenant_read (find_run id) db

module _ (solve : Request → Result Response) (digest : Request → ℕ) (drawn : ℤ) where
  abbrev digest_of : Result Request → Result ℕ
  digest_of (err e) = err e
  digest_of (ok request) = ok (digest request)

  unfoldable pub fingerprint : Request → Result ℕ
  fingerprint request = digest_of (canonicalize request)

  abbrev pub rerun_input : SolveRun → Request → StartInput
  rerun_input source request = record {
    rerun_of_solve_run_id = some source.id;
    request = request;
    seed = some source.seed;
    draft_revision = none;
  }

  abbrev rerun_checked : Actor → SolveRun → Request → Result ℕ → Db → Result SolveRun × Db
  rerun_checked actor source request (err e) db = (err e, db)
  rerun_checked actor source request (ok current) db =
      if not (current == source.input_fingerprint)
      then (err fingerprint_mismatch, db)
      else start solve digest drawn actor (rerun_input source request) db

  abbrev rerun_source : Actor → Request → Result SolveRun → Db → Result SolveRun × Db
  rerun_source actor request (err e) db = (err e, db)
  rerun_source actor request (ok source) db =
      rerun_checked actor source (record request { seed = source.seed })
        (fingerprint (record request { seed = source.seed })) db

  unfoldable pub rerun : Actor → Xid → Request → Db → Result SolveRun × Db
  unfolding get_run fingerprint
  rerun actor run_id request db = rerun_source actor request (get_run run_id db) db

-- The row that a run returns.
start_body-row :
    (input : StartInput) (request : Request) (n : ℕ) (response : Response) (s s' : TxState)
    (run : SolveRun)
    → start_body input request n response s ≡ ok (run, s')
    → (run.rerun_of_solve_run_id ≡ input.rerun_of_solve_run_id)
      × (run.seed ≡ request.seed)
      × (run.input_fingerprint ≡ n)
unfolding start_body get_session_for_update get_session
start_body-row input request n response s s' run h =
    found_rule s.db.session Error.no_rows s _ h λ row found k1.
      let status = application_status response.status input.draft_revision row.draft_revision in
      let mk = run_row input request n response status in
      bind_rule (create_solve_run mk s) _ k1 λ created s1 e1 k2.
        bind_rule (apply_if status (apply_run request created.id response row.draft_revision) s1) _
          k2
          λ _ s2 e2 k3. bind_rule (record_audit (run_entry created.id) s2) _ k3 λ _ s3 e3 k4.
            let made =
              (pure_inj {a = created} {b = run} {s = s3} {s' = s'} k4).0
              ∙ (create-eq mk created s s1 e1).0 in
            (
              ap (λ r. r.rerun_of_solve_run_id) made,
              ap (λ r. r.seed) made,
              ap (λ r. r.input_fingerprint) made,
            )

canonicalize-seed : (request c : Request) → canonicalize request ≡ ok c → c.seed ≡ request.seed
unfolding canonicalize
canonicalize-seed request c h = ground arith

-- The fingerprint that a run is prepared with is that of its canonical request.
accept-prepared : (b : Bool) (p q : Prepared) → accept b p ≡ ok q → q ≡ p
accept-prepared true p q h = cc
accept-prepared false p q h = absurd (ground arith)

with_response-prepared :
    (c : Request) (n : ℕ) (r : Result Response) (request : Request) (fingerprint : ℕ)
    (response : Response)
    → with_response c n r ≡ ok (request, (fingerprint, response))
    → (request ≡ c) × (fingerprint ≡ n)
with_response-prepared c n (err e) request fingerprint response h = absurd (ground arith)
with_response-prepared c n (ok q) request fingerprint response h =
    let same = accept-prepared (validate_successful_response c q) _ _ h in
    (ap (λ p. p.0) same, ap (λ p. p.1.0) same)

with_raw-prepared :
    (c : Request) (n : ℕ) (r : Result Response) (request : Request) (fingerprint : ℕ)
    (response : Response)
    → with_raw c n r ≡ ok (request, (fingerprint, response))
    → (request ≡ c) × (fingerprint ≡ n)
with_raw-prepared c n (err e) request fingerprint response h = absurd (ground arith)
with_raw-prepared c n (ok raw) request fingerprint response h =
    with_response-prepared c n _ request fingerprint response h

-- What a run that repeats a source keeps of it.
pub record Reproduces (source run : SolveRun) : Type 0 where
  pub same_source : run.rerun_of_solve_run_id ≡ some source.id
  pub same_seed : run.seed ≡ source.seed
  pub same_input : run.input_fingerprint ≡ source.input_fingerprint

module _ (solve : Request → Result Response) (digest : Request → ℕ) (drawn : ℤ) where
  with_request-Reproduces :
      (actor : Actor) (source run : SolveRun) (request : Request) (c : Result Request) (db : Db)
      → canonicalize (record request { seed = source.seed }) ≡ c
      → digest_of solve digest drawn c ≡ ok source.input_fingerprint
      → (p : Result Prepared) → with_request solve digest drawn c ≡ p
      → (start_prepared solve digest drawn actor
          (rerun_input solve digest drawn source (record request { seed = source.seed }))
          p
          db).0
        ≡ ok run
      → Reproduces source run
  with_request-Reproduces actor source run request (err e) db at same p prepared h =
      absurd (ground arith)
  with_request-Reproduces actor source run request (ok c) db at same (err e) prepared h =
      absurd (ground arith)
  with_request-Reproduces actor source run request (ok c) db at same (ok (q, (n, response)))
        prepared h =
      let input = rerun_input solve digest drawn source (record request { seed = source.seed }) in
      let (s, ran, _, _, _) = in_tenant_commits actor (start_body input q n response) db run h in
      let (rerun_of, seed, print) = start_body-row input q n response _ s run ran in
      let (same_request, same_print) =
        with_raw-prepared c (digest c) (solve c) q n response prepared in
      record {
        same_source = rerun_of;
        same_seed =
            seed
            ∙ (ap (λ r. r.seed) same_request
                ∙ canonicalize-seed (record request { seed = source.seed }) c at);
        same_input = print ∙ (same_print ∙ ground (arith, same));
      }

  checked-Reproduces :
      (actor : Actor) (source run : SolveRun) (request : Request) (db : Db) (current : Result ℕ)
      → fingerprint solve digest drawn (record request { seed = source.seed }) ≡ current
      → (rerun_checked solve digest drawn actor source
          (record request { seed = source.seed })
          current
          db).0
        ≡ ok run
      → Reproduces source run
  unfolding fingerprint start prepare
  checked-Reproduces actor source run request db (err e) at h = absurd (ground arith)
  checked-Reproduces actor source run request db (ok n) at h =
      elim (Bool-cases (n == source.input_fingerprint)) [
        | inl same ↦
            with_request-Reproduces actor source run request
              (canonicalize (record request { seed = source.seed })) db refl
              (at ∙ ap ok (eq_of_== n source.input_fingerprint same)) _ refl (rw same at h)
        | inr differ ↦ absurd (ok_err (rw differ at h))
      ]
    where
      ok_err : {e : Error} {r : SolveRun} → ◌≡◌ {A = Result SolveRun} (err e) (ok r) → ⊥
      ok_err e = cc

  -- A rerun that succeeds repeats a recorded run: the new run names it, and has its seed and the
  -- fingerprint of its input, whatever request was supplied and whatever the sidecar answers.
  pub rerun-Reproduces :
      (actor : Actor) (run_id : Xid) (request : Request) (db : Db) (run : SolveRun)
      → (rerun solve digest drawn actor run_id request db).0 ≡ ok run
      → (source : SolveRun) × (get_run run_id db ≡ ok source) × Reproduces source run
  unfolding rerun
  rerun-Reproduces actor run_id request db run h = go (get_run run_id db) refl h
    where
      go :
          (r : Result SolveRun)
          → get_run run_id db ≡ r
          → (rerun_source solve digest drawn actor request r db).0 ≡ ok run
          → (source : SolveRun) × (get_run run_id db ≡ ok source) × Reproduces source run
      go (err e) at k = absurd (ground arith)
      go (ok source) at k = (source, at, checked-Reproduces actor source run request db _ refl k)
