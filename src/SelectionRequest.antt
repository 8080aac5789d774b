-- ===== src/SelectionRequest.antt =====
-- src/maple_next/providers/selection_request.py: the canonical request of a Selection advice job. The
-- fixed output schema is left out, and the digest of the canonical JSON text is a parameter of the
-- commands that use it.
use maple_next.Base.{
  ℕ, String, Option, none, some, List, length, is_some, Result, ok, value_error, raise_if, ◌>>◌,
  ◌!=◌, nat_eq, string_eq, option_eq,
}
use maple_next.TeamBuild.{TeamBuild, pokemon_names}
use maple_next.Models.{BattleSession, SelectionFacts, names_eq}

pub record SelectionAdviceRequest : Type 0 where
  pub job_type : String
  pub session_id : String
  pub match_id : String
  pub generation : ℕ
  pub battle_revision : ℕ
  pub reviewed_selection_id : String
  pub self_team : List String
  pub opponent_team : List String
  pub contract_version : String
  pub self_team_build : Option TeamBuild
  pub self_team_build_sha256 : Option String

abbrev pub contract_version_v1 : String
contract_version_v1 = "maple-selection-advice.v1"

abbrev pub contract_version_v2 : String
contract_version_v2 = "maple-selection-advice.v2"

abbrev version_for : Option TeamBuild → String
version_for none = contract_version_v1
version_for (some build) = contract_version_v2

module _ (sha256 : TeamBuild → String) where
  abbrev hash_for : Option TeamBuild → Option String
  hash_for none = none
  hash_for (some build) = some (sha256 build)

  abbrev check_contract : Option TeamBuild → SelectionAdviceRequest → Result (Unit {0})
  check_contract none r = do
    raise_if (is_some r.self_team_build_sha256)
        (value_error "names-only selection request must not have a build hash")
    raise_if (r.contract_version != contract_version_v1)
        (value_error "names-only selection request must use v1")
  check_contract (some build) r = do
    raise_if (r.contract_version != contract_version_v2)
        (value_error "detailed selection request must use v2")
    raise_if (pokemon_names build != r.self_team)
        (value_error "selection build names must match self_team")
    raise_if (r.self_team_build_sha256 != some (sha256 build))
        (value_error "selection build hash does not match build")

  -- `SelectionAdviceRequest.__post_init__`
  unfoldable pub make_selection_request : SelectionAdviceRequest → Result SelectionAdviceRequest
  make_selection_request r = do
    raise_if (r.job_type != "SELECTION_ADVICE") (value_error "job_type must be SELECTION_ADVICE")
    raise_if (length r.self_team != 6) (value_error "self_team must contain exactly six entries")
    raise_if (length r.opponent_team != 6)
        (value_error "opponent_team must contain exactly six entries")
    check_contract r.self_team_build r
    ok r

  -- `build_selection_advice_request`, from the session and its reviewed facts
  unfoldable pub build_selection_advice_request :
      BattleSession → String → SelectionFacts → Result SelectionAdviceRequest
  unfolding make_selection_request
  build_selection_advice_request session reviewed_selection_id facts =
      make_selection_request (record {
        job_type = "SELECTION_ADVICE";
        session_id = session.session_id;
        match_id = session.match_id;
        generation = session.generation;
        battle_revision = session.battle_revision;
        reviewed_selection_id = reviewed_selection_id;
        self_team = facts.self_team;
        opponent_team = facts.opponent_team;
        contract_version = version_for facts.self_team_build;
        self_team_build = facts.self_team_build;
        self_team_build_sha256 = hash_for facts.self_team_build;
      })
