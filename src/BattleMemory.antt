-- ===== src/BattleMemory.antt =====
-- src/maple_next/domain/battle_memory.py: the builds of the selected three, and the confirmed memory of
-- the completed Turns of a match, with the checks of its records. The canonical JSON is left out.
pub mod Chain
pub mod Build
pub mod Projection
pub mod Rows
pub mod Turns
pub mod Termination
use maple_next.Base.{
  ℕ, ◌+◌, String, Bool, true, false, not, ◌||◌, Option, none, some, List, [], ◌∷◌, is_none, is_some,
  Result, ok, memory_error, selected_build_error, raise_if, ◌>>◌, ◌>>=◌, is_blank, ◌!=◌, nat_eq,
  string_eq,
}
use maple_next.Enums.{ActionType, ActionOrder}
use maple_next.TeamBuild.{PokemonBuild}
use maple_next.TurnState.Known.{KnowledgeStatus, Known, is_confirmed_status}
use maple_next.TurnState.Records.{TurnIdentity, ActionResultDelta}

pub data SelectedBuildStatus : Type 0 where
  confirmed unknown : SelectedBuildStatus

pub record SelectedBuildMember : Type 0 where
  pub pokemon_name : String
  pub build_status : SelectedBuildStatus
  pub build : Option PokemonBuild

abbrev check_detail : SelectedBuildStatus → String → Option PokemonBuild → Result (Unit {0})
check_detail SelectedBuildStatus.confirmed name none =
    maple_next.Base.err (selected_build_error "CONFIRMED_SELECTED_BUILD_REQUIRES_BUILD")
check_detail SelectedBuildStatus.confirmed name (some build) =
    raise_if (build.pokemon_name != name) (selected_build_error "SELECTED_BUILD_NAME_MISMATCH")
check_detail SelectedBuildStatus.unknown name build =
    raise_if (is_some build) (selected_build_error "UNKNOWN_SELECTED_BUILD_MUST_NOT_CARRY_BUILD")

-- `SelectedBuildMember.__post_init__`
unfoldable pub make_member : SelectedBuildMember → Result SelectedBuildMember
make_member m = do
  raise_if (is_blank m.pokemon_name) (selected_build_error "SELECTED_BUILD_MEMBER_NAME_REQUIRED")
  check_detail m.build_status m.pokemon_name m.build
  ok m

pub record BattleMemoryAction : Type 0 where
  pub knowledge_status : KnowledgeStatus
  pub action_type : Option ActionType
  pub action_name : Option String

abbrev no_name : Option String → Bool
no_name none = true
no_name (some name) = is_blank name

abbrev check_action : KnowledgeStatus → BattleMemoryAction → Result (Unit {0})
check_action KnowledgeStatus.confirmed a = do
  raise_if (is_none a.action_type) (memory_error "CONFIRMED_ACTION_REQUIRES_ACTION_TYPE")
  raise_if (no_name a.action_name) (memory_error "CONFIRMED_ACTION_REQUIRES_ACTION_NAME")
check_action KnowledgeStatus.unknown a =
    raise_if (is_some a.action_type || is_some a.action_name)
      (memory_error "UNKNOWN_ACTION_MUST_NOT_CARRY_A_VALUE")

-- `BattleMemoryAction.__post_init__`
unfoldable pub make_action : BattleMemoryAction → Result BattleMemoryAction
make_action a = do check_action a.knowledge_status a; ok a

unfoldable pub action_confirmed : ActionType → String → Result BattleMemoryAction
unfolding make_action
action_confirmed action_type action_name = make_action (record {
  knowledge_status = KnowledgeStatus.confirmed;
  action_type = some action_type;
  action_name = some action_name;
})

unfoldable pub action_unknown : Result BattleMemoryAction
unfolding make_action
action_unknown =
    make_action (record {
      knowledge_status = KnowledgeStatus.unknown;
      action_type = none;
      action_name = none;
    })

pub record RichActionCompletionFacts : Type 0 where
  pub transaction_id : String
  pub identity : TurnIdentity
  pub based_on_confirmed_state_id : String
  pub own_action_type : ActionType
  pub own_action_name : String
  pub opponent_action_type : Option ActionType
  pub opponent_action_name : Option String
  pub action_order : ActionOrder
  pub delta_id : String

unfoldable pub make_completion : RichActionCompletionFacts → Result RichActionCompletionFacts
make_completion c = do
  raise_if (is_blank c.transaction_id) (memory_error "COMPLETION_TRANSACTION_ID_REQUIRED")
  raise_if (is_blank c.based_on_confirmed_state_id)
      (memory_error "COMPLETION_BASED_ON_CONFIRMED_STATE_ID_REQUIRED")
  raise_if (is_blank c.own_action_name) (memory_error "COMPLETION_OWN_ACTION_NAME_REQUIRED")
  raise_if (is_blank c.delta_id) (memory_error "COMPLETION_DELTA_ID_REQUIRED")
  ok c

pub record BattleMemoryTurn : Type 0 where
  pub identity : TurnIdentity
  pub reviewed_confirmed_state_id : String
  pub turn_start_self_active : Known String
  pub turn_start_opponent_active : Known String
  pub own_action : BattleMemoryAction
  pub opponent_action : BattleMemoryAction
  pub action_order : ActionOrder
  pub result : ActionResultDelta

-- `BattleMemoryTurn.__post_init__`
unfoldable pub make_memory_turn : BattleMemoryTurn → Result BattleMemoryTurn
make_memory_turn t = do
  raise_if (is_blank t.reviewed_confirmed_state_id)
      (memory_error "MEMORY_REVIEWED_CONFIRMED_STATE_ID_REQUIRED")
  raise_if (not (is_confirmed_status t.own_action.knowledge_status))
      (memory_error "MEMORY_OWN_ACTION_MUST_BE_CONFIRMED")
  ok t

pub record BattleMemory : Type 0 where
  pub turns : List BattleMemoryTurn

unfoldable pub check_contiguous : ℕ → List BattleMemoryTurn → Result (Unit {0})
check_contiguous expected [] = ok tt
check_contiguous expected (row ∷ rows) = do
  raise_if (row.identity.turn_number != expected)
      (memory_error "MEMORY_TURNS_MUST_BE_CONTIGUOUS_AND_ASCENDING")
  check_contiguous (expected + 1) rows

-- `BattleMemory.__post_init__`
unfoldable pub make_battle_memory : List BattleMemoryTurn → Result BattleMemory
unfolding check_contiguous
make_battle_memory turns = do check_contiguous 1 turns; ok (record { turns = turns })
