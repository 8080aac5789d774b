-- ===== src/Models.antt =====
-- src/maple_next/domain/models.py: the records of a match and their `__post_init__` checks. Where a
-- detailed build is compared with its digest, the digest is the parameter `sha256`.
use maple_next.Base.{
  ℕ, ◌+◌, String, Bool, true, not, ◌&&◌, ◌||◌, Option, none, some, List, ltb, length, is_none,
  is_some, any_of, keep, Result, ok, value_error, raise_if, ◌>>◌, is_blank, Eq, ◌==◌, ◌!=◌, nat_eq,
  size, string_eq, option_eq, discrete_eq, String-discrete, ℕ_discrete, all_distinct, member,
}
use maple_next.Enums.{BattleState, HpBucket, ActionType, ActionOrder, MatchOutcome}
use maple_next.TeamBuild.{TeamBuild, pokemon_names}

unfoldable pub names-discrete : Discrete (List String)
names-discrete = hlevel String-discrete

instance abbrev pub names_eq : Eq (List String)
names_eq = discrete_eq names-discrete

pub record SelectionFacts : Type 0 where
  pub reviewed_selection_id : String
  pub self_team : List String
  pub opponent_team : List String
  pub self_team_build : Option TeamBuild
  pub self_team_build_sha256 : Option String

module _ (sha256 : TeamBuild → String) where
  abbrev check_build : Option TeamBuild → SelectionFacts → Result (Unit {0})
  check_build none facts =
      raise_if (is_some facts.self_team_build_sha256)
        (value_error "names-only selection facts must not have a build hash")
  check_build (some build) facts = do
    raise_if (pokemon_names build != facts.self_team)
        (value_error "self team build names must match selection facts")
    raise_if (facts.self_team_build_sha256 != some (sha256 build))
        (value_error "self team build hash does not match canonical build")

  unfoldable pub make_selection_facts : SelectionFacts → Result SelectionFacts
  make_selection_facts facts = do
    raise_if (length facts.self_team != 6 || not (all_distinct facts.self_team))
        (value_error "self team must contain six unique names")
    raise_if (length facts.opponent_team != 6 || not (all_distinct facts.opponent_team))
        (value_error "opponent team must contain six unique names")
    check_build facts.self_team_build facts
    ok facts

pub record AppliedSelectionSnapshot : Type 0 where
  pub applied_selection_id : String
  pub selected_three : List String
  pub lead : String
  pub backline : List String
  pub source_advice_id : String

-- `set(xs) == set(ys)`
abbrev same_members : List String → List String → Bool
same_members xs ys =
    not (any_of (λ x. not (member x ys)) xs) && not (any_of (λ y. not (member y xs)) ys)

unfoldable pub make_applied_selection : AppliedSelectionSnapshot → Result AppliedSelectionSnapshot
make_applied_selection a = do
  raise_if (length a.selected_three != 3 || not (all_distinct a.selected_three))
      (value_error "selected three must be unique")
  raise_if (not (member a.lead a.selected_three)) (value_error "lead must be selected")
  raise_if (not (same_members a.backline (keep (λ name. name != a.lead) a.selected_three)))
      (value_error "backline must be the other selected Pokemon")
  ok a

pub record BattleTurn : Type 0 where
  pub turn_id : String
  pub turn_number : ℕ

unfoldable pub BattleTurn-discrete : Discrete BattleTurn
BattleTurn-discrete = hlevel (String-discrete, ℕ_discrete)

instance abbrev pub turn_eq : Eq BattleTurn
turn_eq = discrete_eq BattleTurn-discrete

unfoldable pub make_turn : BattleTurn → Result BattleTurn
make_turn t = do raise_if (ltb t.turn_number 1) (value_error "turn number must be positive"); ok t

pub record TurnFactsSnapshot : Type 0 where
  pub turn_facts_id : String
  pub turn_id : String
  pub turn_number : ℕ
  pub self_active : String
  pub opponent_active : String
  pub self_hp : HpBucket
  pub opponent_hp : HpBucket
  pub legal_moves : List String
  pub legal_switches : List String
  pub human_note : String
  pub previous_snapshot_id : Option String

unfoldable pub make_turn_facts : TurnFactsSnapshot → Result TurnFactsSnapshot
make_turn_facts f = do
  raise_if (ltb f.turn_number 1) (value_error "turn number must be positive")
  raise_if (is_blank f.self_active || is_blank f.opponent_active)
      (value_error "active names must be explicit")
  raise_if (ltb (length f.legal_moves) 1 || ltb 4 (length f.legal_moves))
      (value_error "legal moves must contain one to four names")
  raise_if (any_of is_blank f.legal_moves) (value_error "legal moves cannot contain blanks")
  raise_if (not (all_distinct f.legal_moves)) (value_error "legal moves must be unique")
  raise_if (any_of is_blank f.legal_switches) (value_error "legal switches cannot contain blanks")
  raise_if (not (all_distinct f.legal_switches)) (value_error "legal switches must be unique")
  raise_if (member f.self_active f.legal_switches)
      (value_error "self active cannot be a switch candidate")
  ok f

pub record TurnAdviceSnapshot : Type 0 where
  pub turn_advice_id : String
  pub turn_id : String
  pub turn_number : ℕ
  pub job_id : String
  pub input_snapshot_id : String
  pub action_type : ActionType
  pub action_name : String
  pub opponent_prediction : String
  pub rationale : String
  pub is_mock : Bool
  pub source_type : String
  pub model : String
  pub warnings : List String
  pub response_schema_version : String
  pub advice_json : Option String

-- `name is None or not name.strip()`
abbrev pub missing_text : Option String → Bool
missing_text none = true
missing_text (some text) = is_blank text

unfoldable pub make_turn_advice : TurnAdviceSnapshot → Result TurnAdviceSnapshot
make_turn_advice a = do
  raise_if (ltb a.turn_number 1) (value_error "turn number must be positive")
  raise_if (is_blank a.action_name) (value_error "advice action must be explicit")
  raise_if (is_blank a.opponent_prediction) (value_error "opponent prediction must be explicit")
  raise_if (is_blank a.rationale) (value_error "advice rationale must be explicit")
  raise_if (is_blank a.source_type) (value_error "advice source_type must be explicit")
  raise_if (is_blank a.response_schema_version)
      (value_error "advice response_schema_version must be explicit")
  let is_v2 = a.response_schema_version == "maple-turn-advice-response.v2"
  raise_if (is_v2 && missing_text a.advice_json) (value_error "v2 advice row requires advice_json")
  raise_if (not is_v2 && is_some a.advice_json)
      (value_error "non-v2 advice row must not carry advice_json")
  ok a

pub record RecordedAction : Type 0 where
  pub action_id : String
  pub turn_id : String
  pub turn_number : ℕ
  pub action_type : ActionType
  pub action_name : String
  pub opponent_action_type : Option ActionType
  pub opponent_action_name : Option String
  pub action_order : ActionOrder

unfoldable pub make_recorded_action : RecordedAction → Result RecordedAction
make_recorded_action a = do
  raise_if (ltb a.turn_number 1) (value_error "turn number must be positive")
  raise_if (is_blank a.action_name) (value_error "recorded action must be explicit")
  raise_if (is_none a.opponent_action_type && is_some a.opponent_action_name)
      (value_error "unknown opponent action name must be None")
  raise_if (is_some a.opponent_action_type && missing_text a.opponent_action_name)
      (value_error "opponent action name must be explicit when type is provided")
  ok a

pub record BattleSession : Type 0 where
  pub session_id : String
  pub match_id : String
  pub generation : ℕ
  pub state : BattleState
  pub battle_revision : ℕ
  pub metadata_revision : ℕ
  pub current_reviewed_selection_id : Option String
  pub current_selection_advice_id : Option String
  pub current_applied_selection_id : Option String
  pub current_turn_id : Option String
  pub current_observation_id : Option String
  pub current_reviewed_board_id : Option String
  pub current_turn_advice_id : Option String
  pub active_slot : Option ℕ
  pub rules_ruleset_id : Option String
  pub rules_ruleset_version : Option String
  pub rules_snapshot_id : Option String
  pub rules_facts_sha256 : Option String
  pub opponent_intel_pin_status : Option String
  pub opponent_intel_generation_id : Option String
  pub opponent_intel_snapshot_sha256 : Option String

unfoldable pub bump_battle : BattleSession → BattleSession
bump_battle s = record s { battle_revision = s.battle_revision + 1 }

unfoldable pub bump_metadata : BattleSession → BattleSession
bump_metadata s = record s { metadata_revision = s.metadata_revision + 1 }

-- src/maple_next/domain/match_models.py
pub record MatchOutcomeRecord : Type 0 where
  pub session_id : String
  pub match_id : String
  pub generation : ℕ
  pub outcome : MatchOutcome
  pub ended_at_utc : String
  pub final_battle_revision : ℕ

unfoldable pub make_match_outcome : MatchOutcomeRecord → Result MatchOutcomeRecord
make_match_outcome r = do
  raise_if (ltb r.generation 1) (value_error "generation must be positive")
  raise_if (ltb r.final_battle_revision 1) (value_error "final battle revision must be positive")
  raise_if (is_blank r.ended_at_utc) (value_error "ended_at_utc must be explicit")
  ok r

pub record MatchExportRecord : Type 0 where
  pub session_id : String
  pub match_id : String
  pub schema_version : String
  pub export_path : String
  pub sha256 : String
  pub exported_at_utc : String

-- `is_hexadecimal` says whether `int(text, 16)` reads the text.
unfoldable pub make_match_export : (String → Bool) → MatchExportRecord → Result MatchExportRecord
make_match_export is_hexadecimal r = do
  raise_if (is_blank r.schema_version) (value_error "schema version must be explicit")
  raise_if (is_blank r.export_path) (value_error "export path must be explicit")
  raise_if (size r.sha256 != 64) (value_error "sha256 must contain 64 hexadecimal characters")
  raise_if (not (is_hexadecimal r.sha256)) (value_error "sha256 must be hexadecimal")
  raise_if (is_blank r.exported_at_utc) (value_error "exported_at_utc must be explicit")
  ok r
