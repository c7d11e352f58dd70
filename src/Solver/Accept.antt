-- ===== src/Solver/Accept.antt =====
-- What a run takes to its transaction: the checks of `Start` on the response of the sidecar.
use miniclass.Base.{
  ℕ, ◌==◌, ◌≡◌, refl, sym, ap, ◌∙◌, ltb, Bool, true, false, [], contains, length, if◌then◌else◌,
  Xid, arith,
}
use miniclass.Base.Int.{ℤ}
use miniclass.Base.Sort.{sort_slice}
use miniclass.Store.Tx.{Result, ok, err}
use miniclass.Solver.Contract.{Request}
use miniclass.Solver.Response.{Response, SolverAssignment, canonicalize_response, valid_assignments}
use miniclass.Solver.Start.{
  StartInput, successful_status, participant_ids, offering_ids, validate_successful_response,
  Prepared, accept, with_response, with_raw, with_request, prepare,
}
use miniclass.Base.Counting.{times, count_if-sort, length-sort}
use miniclass.Solver.Coverage.{participant, assigned-one}

-- A canonical response, and the response that it orders.
canonicalize_response-raw :
    (raw response : Response)
    → canonicalize_response raw ≡ ok response
    → (valid_assignments [] raw.assignments ≡ true)
      × ((id : Xid)
          → times participant id response.assignments ≡ times participant id raw.assignments)
      × (length response.assignments ≡ length raw.assignments)
unfolding canonicalize_response
canonicalize_response-raw raw response h =
    let less : SolverAssignment → SolverAssignment → Bool =
      λ a b. ltb a.participant_id b.participant_id in
    let same : response.assignments ≡ sort_slice less raw.assignments = ground arith in
    (
      ground arith,
      λ id.
          ap (times participant id) same
          ∙ count_if-sort less (λ a. a.participant_id == id) raw.assignments,
      ap length same ∙ length-sort less raw.assignments,
    )

record Checked (request : Request) (response : Response) : Type 0 where
  raw : Response
  canonical : canonicalize_response raw ≡ ok response
  valid : validate_successful_response request response ≡ true

accept-eq : (b : Bool) (p q : Prepared) → accept b p ≡ ok q → (b ≡ true) × (q ≡ p)
accept-eq true p q h = (refl, cc)
accept-eq false p q h = absurd (ground arith)

with_response-Checked :
    (r : Request) (n : ℕ) (raw : Response) (c : Result Response) (request : Request)
    (fingerprint : ℕ) (response : Response)
    → canonicalize_response raw ≡ c
    → with_response r n c ≡ ok (request, (fingerprint, response))
    → Checked request response
with_response-Checked r n raw (err e) request fingerprint response c h = absurd (ground arith)
with_response-Checked r n raw (ok q) request fingerprint response c h =
    let (valid, same) = accept-eq (validate_successful_response r q) _ _ h in
    let same_request : request ≡ r = ap (λ p. p.0) same in
    let same_response : response ≡ q = ap (λ p. p.1.1) same in
    record {
      raw = raw;
      canonical = c ∙ ap ok (sym same_response);
      valid = rw (same_request, same_response) valid;
    }

with_raw-Checked :
    (r : Request) (n : ℕ) (raw : Result Response) (request : Request) (fingerprint : ℕ)
    (response : Response)
    → with_raw r n raw ≡ ok (request, (fingerprint, response))
    → Checked request response
with_raw-Checked r n (err e) request fingerprint response h = absurd (ground arith)
with_raw-Checked r n (ok raw) request fingerprint response h =
    with_response-Checked r n raw (canonicalize_response raw) request fingerprint response refl h

-- The checks on a successful response, taken apart.
Checked-times :
    (request : Request) (response : Response)
    → Checked request response
    → successful_status response.status ≡ true
    → (id : Xid)
    → times participant id response.assignments
      ≡ (if contains id (participant_ids request) then 1 else 0)
unfolding validate_successful_response
Checked-times request response c success =
    let (valid, same, len) = canonicalize_response-raw c.raw response c.canonical in
    assigned-one c.raw.assignments response.assignments (participant_ids request)
      (offering_ids request) same len valid (ground (arith, c.valid)) (ground (arith, c.valid))

module _ (solve : Request → Result Response) (digest : Request → ℕ) (drawn : ℤ) where
  with_request-Checked :
      (c : Result Request) (request : Request) (fingerprint : ℕ) (response : Response)
      → with_request solve digest drawn c ≡ ok (request, (fingerprint, response))
      → Checked request response
  with_request-Checked (err e) request fingerprint response h = absurd (ground arith)
  with_request-Checked (ok r) request fingerprint response h =
      with_raw-Checked r (digest r) (solve r) request fingerprint response h

  -- Whatever the sidecar answers, a successful response that `Start` goes on with assigns every
  -- participant of the request exactly once, and nobody else.
  pub prepare-times :
      (input : StartInput) (request : Request) (fingerprint : ℕ) (response : Response)
      → prepare solve digest drawn input ≡ ok (request, (fingerprint, response))
      → successful_status response.status ≡ true
      → (id : Xid)
      → times participant id response.assignments
        ≡ (if contains id (participant_ids request) then 1 else 0)
  unfolding prepare
  prepare-times input request fingerprint response h =
      Checked-times request response (with_request-Checked _ request fingerprint response h)
