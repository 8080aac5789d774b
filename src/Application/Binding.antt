-- ===== src/Application/Binding.antt =====
-- `_binding_failure_reason` of src/maple_next/application/service.py against what it is to bind.
use maple_next.Base.{
  ℕ, String, Bool, true, false, ◌&&◌, ◌≡◌, ◌↔◌, refl, sym, Option, none, some, List, [], ◌∷◌, arith,
  ◌==◌, Eq, ==-eq, ==_refl, nat_eq, string_eq, option_eq,
}
use maple_next.Enums.{state_eq, job_type_eq}
use maple_next.Models.{BattleSession}
use maple_next.Envelopes.{JobEnvelope, ResultEnvelope}
use maple_next.Repository.Jobs.{is_unfinished}
use maple_next.Application.Jobs.{first_failure, binding_failure_reason}

-- A result answers the newest job of its lane, which is open. It agrees with that job on the contract, the
-- command, the lane, the Turn number, the revision, the expected state, the snapshot and the hash of the
-- request; with the session on the session, the match, the generation, the revision and the state; and with
-- the reviewed snapshot and the Turn number that are current. Its session, match and generation are not
-- compared with the job's.
pub record Binds (session : BattleSession) (latest job : JobEnvelope) (result : ResultEnvelope)
    (snapshot_id : Option String) (turn_number : Option ℕ) : Type 0 where
  pub newest : latest.job_id ≡ job.job_id
  pub open_ : is_unfinished job.status ≡ true
  pub contract : result.contract_version ≡ job.contract_version
  pub command : result.command_id ≡ job.command_id
  pub lane : result.job_type ≡ job.job_type
  pub session_ : result.session_id ≡ session.session_id
  pub match_ : result.match_id ≡ session.match_id
  pub generation : result.generation ≡ session.generation
  pub turn_of_job : result.turn_number ≡ job.turn_number
  pub turn : result.turn_number ≡ turn_number
  pub revision : result.base_battle_revision ≡ session.battle_revision
  pub revision_of_job : result.base_battle_revision ≡ job.base_battle_revision
  pub state : result.expected_state ≡ session.state
  pub state_of_job : result.expected_state ≡ job.expected_state
  pub snapshot : snapshot_id ≡ some result.input_snapshot_id
  pub snapshot_of_job : result.input_snapshot_id ≡ job.input_snapshot_id
  pub payload_hash : result.request_payload_hash ≡ job.request_payload_hash

-- A check that passes leaves the rest, and the whole passes only if it does.
check_passes :
    (b : Bool) (reason : String) (rest : List (Bool × String))
    → first_failure ((b, reason) ∷ rest) ≡ none
    → (b ≡ true) × (first_failure rest ≡ none)
unfolding first_failure
check_passes true reason rest h = (refl, h)
check_passes false reason rest h = cc

both : (a b : Bool) → (a && b) ≡ true → (a ≡ true) × (b ≡ true)
both true b h = (refl, h)
both false b h = ground arith

module _ (session : BattleSession) (latest job : JobEnvelope) (result : ResultEnvelope)
    (snapshot_id : Option String) (turn_number : Option ℕ) where
  pub accepted-Binds :
      binding_failure_reason (some session) (some latest) job result snapshot_id turn_number ≡ none
      → Binds session latest job result snapshot_id turn_number
  unfolding binding_failure_reason
  accepted-Binds h =
      let (c1, h1) = check_passes _ _ _ h in
      let (c2, h2) = check_passes _ _ _ h1 in
      let (c3, h3) = check_passes _ _ _ h2 in
      let (c4, h4) = check_passes _ _ _ h3 in
      let (c5, h5) = check_passes _ _ _ h4 in
      let (c6, h6) = check_passes _ _ _ h5 in
      let (c7, h7) = check_passes _ _ _ h6 in
      let (c8, h8) = check_passes _ _ _ h7 in
      let (c9, h9) = check_passes _ _ _ h8 in
      let (c10, h10) = check_passes _ _ _ h9 in
      let (c11, h11) = check_passes _ _ _ h10 in
      let (c12, h12) = check_passes _ _ _ h11 in
      let (c13, h13) = check_passes _ _ _ h12 in
      record {
        newest = ==-eq _ _ c1;
        open_ = c2;
        contract = ==-eq _ _ c3;
        command = ==-eq _ _ c4;
        lane = ==-eq _ _ c5;
        session_ = ==-eq _ _ c6;
        match_ = ==-eq _ _ c7;
        generation = ==-eq _ _ c8;
        turn_of_job = ==-eq _ _ (both _ _ c9).0;
        turn = ==-eq _ _ (both _ _ c9).1;
        revision = ==-eq _ _ (both _ _ c10).0;
        revision_of_job = ==-eq _ _ (both _ _ c10).1;
        state = ==-eq _ _ (both _ _ c11).0;
        state_of_job = ==-eq _ _ (both _ _ c11).1;
        snapshot = sym (==-eq (some result.input_snapshot_id) snapshot_id (both _ _ c12).0);
        snapshot_of_job = ==-eq _ _ (both _ _ c12).1;
        payload_hash = ==-eq _ _ c13;
      }

  pass :
      (b : Bool) (reason : String) (rest : List (Bool × String))
      → b ≡ true
      → first_failure rest ≡ none
      → first_failure ((b, reason) ∷ rest) ≡ none
  unfolding first_failure
  pass b reason rest p h = rw p h

  same : {A : Type 0} ⦃e : Eq A⦄ {a b : A} → a ≡ b → (a == b) ≡ true
  same {A} {a} {b} h = rw h (==_refl b)

  and : {a b : Bool} → a ≡ true → b ≡ true → (a && b) ≡ true
  and {a} {b} h k = rw h k

  no_check : first_failure [] ≡ none
  unfolding first_failure
  no_check = refl

  pub Binds-accepted :
      Binds session latest job result snapshot_id turn_number
      → binding_failure_reason (some session) (some latest) job result snapshot_id turn_number
        ≡ none
  unfolding binding_failure_reason
  Binds-accepted b = pass _ _ _ (same b.newest) (
      pass _ _ _ b.open_ (
        pass _ _ _ (same b.contract) (
          pass _ _ _ (same b.command) (
            pass _ _ _ (same b.lane) (
              pass _ _ _ (same b.session_) (
                pass _ _ _ (same b.match_) (
                  pass _ _ _ (same b.generation) (
                    pass _ _ _ (and (same b.turn_of_job) (same b.turn)) (
                      pass _ _ _ (and (same b.revision) (same b.revision_of_job)) (
                        pass _ _ _ (and (same b.state) (same b.state_of_job)) (
                          pass _ _ _ (and (same (sym b.snapshot)) (same b.snapshot_of_job))
                            (pass _ _ _ (same b.payload_hash) no_check))))))))))))

  -- With an active session and a newest job of the lane, a result passes the check exactly if that job is its
  -- job, which is open, and it agrees with the job on the contract, the command, the lane, the Turn number,
  -- the revision, the expected state, the snapshot and the hash of the request, with the session on the
  -- session, the match, the generation, the revision and the state, and with the current snapshot and Turn
  -- number.
  pub accepted_iff :
      (binding_failure_reason (some session) (some latest) job result snapshot_id turn_number
        ≡ none)
      ↔ Binds session latest job result snapshot_id turn_number
  accepted_iff = (accepted-Binds, Binds-accepted)
