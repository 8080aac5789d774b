-- ===== src/TurnStateRows/OpponentAction.antt =====
-- `_encode_opponent_action` and `_decode_opponent_action` of
-- src/maple_next/persistence/turn_state_store.py.
use maple_next.Base.{
  String, ◌&&◌, ◌||◌, Option, none, some, Result, ok, err, turn_state_error, raise_if, ◌>>=◌, ◌>>◌,
  is_some, is_blank, strip, ◌==◌, string_eq, if◌then◌else◌,
}
use maple_next.Enums.{ActionType, move, switch}

-- `_OPPONENT_ACTION_UNKNOWN_SENTINEL`
abbrev pub unknown_sentinel : String
unknown_sentinel = "UNKNOWN"

unfoldable pub action_type_value : ActionType → String
action_type_value move = "MOVE"
action_type_value switch = "SWITCH"

-- `ActionType(text)`, with the ValueError turned into a TurnStateError.
unfoldable pub stored_action_type : String → Result ActionType
stored_action_type t =
    if t == "MOVE"
    then ok move
    else if t == "SWITCH"
    then ok switch
    else err (turn_state_error "INVALID_STORED_OPPONENT_ACTION_TYPE")

abbrev encode_known : ActionType → Option String → Result (String × String)
encode_known action_type none = err (turn_state_error "INVALID_KNOWN_OPPONENT_ACTION_NAME")
encode_known action_type (some name) = do
  raise_if (is_blank name || strip name == unknown_sentinel)
      (turn_state_error "INVALID_KNOWN_OPPONENT_ACTION_NAME")
  ok (action_type_value action_type, strip name)

unfoldable pub encode_opponent_action : Option ActionType → Option String → Result (String × String)
encode_opponent_action none name = do
  raise_if (is_some name) (turn_state_error "INVALID_UNKNOWN_OPPONENT_ACTION_NAME")
  ok (unknown_sentinel, unknown_sentinel)
encode_opponent_action (some action_type) name = encode_known action_type name

abbrev decode_known : String → String → Result (Option ActionType × Option String)
decode_known serialized_type serialized_name = do
  raise_if (serialized_type == unknown_sentinel || serialized_name == unknown_sentinel)
      (turn_state_error "MALFORMED_UNKNOWN_OPPONENT_ACTION")
  action_type ← stored_action_type serialized_type
  raise_if (is_blank serialized_name) (turn_state_error "INVALID_STORED_OPPONENT_ACTION_NAME")
  ok (some action_type, some serialized_name)

unfoldable pub decode_opponent_action : String → String → Result (Option ActionType × Option String)
decode_opponent_action serialized_type serialized_name =
    if serialized_type == unknown_sentinel && serialized_name == unknown_sentinel
    then ok (none, none)
    else decode_known serialized_type serialized_name
