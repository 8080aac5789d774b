-- ===== src/TurnStateRows.antt =====
-- src/maple_next/persistence/turn_state_store.py: the rows of its tables and what is written to and read
-- from them. A JSON column holds the dict that `json.dumps` is given; the columns of an identity and of
-- a confirmation stand together.
pub mod OpponentAction
pub mod Laws
use maple_next.Base.{
  ℕ, String, Option, some, is_blank, Result, ok, value_error, raise_if, ◌>>=◌, ◌>>◌, false,
}
use maple_next.Enums.{ActionType, ActionOrder}
use maple_next.Envelopes.{Json, Members}
use maple_next.TurnState.Records.{
  TurnIdentity, make_identity, ConfirmationMeta, make_confirmation, ConfirmedTurnState,
  make_confirmed_state, ActionResultDelta, make_delta, NextTurnStateDraft, make_draft,
}
use maple_next.TurnState.Json.{
  Python, read_text, known_to_json, known_from_json, field_delta_to_json, field_delta_from_json,
  read_bucket, write_bucket,
}
use maple_next.TurnState.SideJson.{
  side_state_to_json, side_state_from_json, side_delta_to_json, side_delta_from_json,
}
use maple_next.TurnState.Actions.{PokemonLocalMemory, make_local_memory}

pub record FixedEvidenceMetadata : Type 0 where
  pub evidence_id : String
  pub relative_path : String
  pub sha256 : String
  pub recorded_at_utc : String

-- `FixedEvidenceMetadata.__post_init__`
unfoldable pub make_evidence : FixedEvidenceMetadata → Result FixedEvidenceMetadata
make_evidence e = do
  raise_if (is_blank e.evidence_id) (value_error "evidence_id must be explicit")
  raise_if (is_blank e.relative_path) (value_error "relative_path must be explicit")
  raise_if (is_blank e.sha256) (value_error "sha256 must be explicit")
  ok e

-- A row of `confirmed_turn_states`.
pub record StateRow : Type 0 where
  pub confirmed_state_id : String
  pub identity : TurnIdentity
  pub previous_confirmed_state_id : Option String
  pub self_side_json : Members
  pub opponent_side_json : Members
  pub weather_json : Members
  pub terrain_json : Members
  pub confirmation : ConfirmationMeta
  pub evidence_id : Option String

-- A row of `action_result_deltas`.
pub record DeltaRow : Type 0 where
  pub delta_id : String
  pub identity : TurnIdentity
  pub based_on_confirmed_state_id : String
  pub self_side_json : Members
  pub opponent_side_json : Members
  pub weather_json : Members
  pub terrain_json : Members
  pub confirmation : ConfirmationMeta

-- A row of `next_turn_state_drafts`.
pub record DraftRow : Type 0 where
  pub draft_id : String
  pub identity : TurnIdentity
  pub based_on_confirmed_state_id : String
  pub source_delta_id : String
  pub self_side_json : Members
  pub opponent_side_json : Members
  pub weather_json : Members
  pub terrain_json : Members
  pub derived_at_utc : String

-- A row of `rich_action_completions`; the two columns of the opponent's action are texts.
pub record CompletionRow : Type 0 where
  pub transaction_id : String
  pub identity : TurnIdentity
  pub based_on_confirmed_state_id : String
  pub own_action_type : ActionType
  pub own_action_name : String
  pub opponent_action_type : String
  pub opponent_action_name : String
  pub action_order : ActionOrder
  pub delta_id : String

-- A row of `pokemon_local_state`.
pub record LocalRow : Type 0 where
  pub session_id : String
  pub match_id : String
  pub generation : ℕ
  pub side : String
  pub pokemon_name : String
  pub hp_bucket_json : Members
  pub status_json : Members

-- The row that `append_confirmed_turn_state` inserts.
unfoldable pub state_row : ConfirmedTurnState → StateRow
state_row state = record {
  confirmed_state_id = state.confirmed_state_id;
  identity = state.identity;
  previous_confirmed_state_id = state.previous_confirmed_state_id;
  self_side_json = side_state_to_json state.self_side;
  opponent_side_json = side_state_to_json state.opponent_side;
  weather_json = known_to_json Json.text state.weather;
  terrain_json = known_to_json Json.text state.terrain;
  confirmation = state.confirmation;
  evidence_id = state.evidence_id;
}

-- The row that `append_action_result_delta` inserts.
unfoldable pub delta_row : ActionResultDelta → DeltaRow
delta_row delta = record {
  delta_id = delta.delta_id;
  identity = delta.identity;
  based_on_confirmed_state_id = delta.based_on_confirmed_state_id;
  self_side_json = side_delta_to_json delta.self_side;
  opponent_side_json = side_delta_to_json delta.opponent_side;
  weather_json = field_delta_to_json Json.text delta.weather;
  terrain_json = field_delta_to_json Json.text delta.terrain;
  confirmation = delta.confirmation;
}

-- The row that `upsert_next_turn_state_draft` inserts.
unfoldable pub draft_row : NextTurnStateDraft → DraftRow
draft_row draft = record {
  draft_id = draft.draft_id;
  identity = draft.identity;
  based_on_confirmed_state_id = draft.based_on_confirmed_state_id;
  source_delta_id = draft.source_delta_id;
  self_side_json = side_state_to_json draft.self_side;
  opponent_side_json = side_state_to_json draft.opponent_side;
  weather_json = known_to_json Json.text draft.weather;
  terrain_json = known_to_json Json.text draft.terrain;
  derived_at_utc = draft.derived_at_utc;
}

-- The row that `upsert_pokemon_local_state` inserts.
unfoldable pub local_row : String → String → ℕ → String → PokemonLocalMemory → LocalRow
local_row session_id match_id generation side memory = record {
  session_id = session_id;
  match_id = match_id;
  generation = generation;
  side = side;
  pokemon_name = memory.pokemon_name;
  hp_bucket_json = known_to_json write_bucket memory.hp_bucket;
  status_json = known_to_json Json.text memory.status;
}

module _ (py : Python) where
  unfoldable pub confirmed_turn_state_from_row : StateRow → Result ConfirmedTurnState
  confirmed_turn_state_from_row row = do
    identity ← make_identity row.identity
    self_side ← side_state_from_json py row.self_side_json
    opponent_side ← side_state_from_json py row.opponent_side_json
    weather ← known_from_json py (read_text py) row.weather_json
    terrain ← known_from_json py (read_text py) row.terrain_json
    confirmation ← make_confirmation row.confirmation
    make_confirmed_state (record {
      confirmed_state_id = row.confirmed_state_id;
      identity = identity;
      previous_confirmed_state_id = row.previous_confirmed_state_id;
      self_side = self_side;
      opponent_side = opponent_side;
      weather = weather;
      terrain = terrain;
      confirmation = confirmation;
      evidence_id = row.evidence_id;
    })

  unfoldable pub action_result_delta_from_row : DeltaRow → Result ActionResultDelta
  action_result_delta_from_row row = do
    identity ← make_identity row.identity
    self_side ← side_delta_from_json py row.self_side_json
    opponent_side ← side_delta_from_json py row.opponent_side_json
    weather ← field_delta_from_json py (read_text py) row.weather_json
    terrain ← field_delta_from_json py (read_text py) row.terrain_json
    confirmation ← make_confirmation row.confirmation
    make_delta (record {
      delta_id = row.delta_id;
      identity = identity;
      based_on_confirmed_state_id = row.based_on_confirmed_state_id;
      self_side = self_side;
      opponent_side = opponent_side;
      weather = weather;
      terrain = terrain;
      confirmation = confirmation;
    })

  -- `provider_ready` has no column: it is false by default.
  unfoldable pub next_turn_state_draft_from_row : DraftRow → Result NextTurnStateDraft
  next_turn_state_draft_from_row row = do
    identity ← make_identity row.identity
    self_side ← side_state_from_json py row.self_side_json
    opponent_side ← side_state_from_json py row.opponent_side_json
    weather ← known_from_json py (read_text py) row.weather_json
    terrain ← known_from_json py (read_text py) row.terrain_json
    make_draft (record {
      draft_id = row.draft_id;
      identity = identity;
      based_on_confirmed_state_id = row.based_on_confirmed_state_id;
      source_delta_id = row.source_delta_id;
      self_side = self_side;
      opponent_side = opponent_side;
      weather = weather;
      terrain = terrain;
      derived_at_utc = row.derived_at_utc;
      provider_ready = false;
    })

  unfoldable pub local_memory_from_row : LocalRow → Result PokemonLocalMemory
  local_memory_from_row row = do
    hp_bucket ← known_from_json py read_bucket row.hp_bucket_json
    status ← known_from_json py (read_text py) row.status_json
    make_local_memory
        (record { pokemon_name = row.pokemon_name; hp_bucket = hp_bucket; status = status })
