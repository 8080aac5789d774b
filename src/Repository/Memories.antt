-- ===== src/Repository/Memories.antt =====
-- src/maple_next/persistence/turn_state_store.py: what a match remembers of a Pokemon, the opponent's
-- abilities and the entries of the opponent's Pokemon.
use maple_next.Base.{
  ℕ, ◌+◌, String, Bool, true, not, ◌&&◌, ◌||◌, Option, none, some, List, [], ◌∷◌, any_of,
  find_first, keep, map, is_none, is_blank, strip, key_error, value_error, if◌then◌else◌, ltb, ◌==◌,
  ◌!=◌, string_eq, nat_eq, option_eq,
}
use maple_next.TurnState.Actions.{PokemonLocalMemory, OpponentEntryEvent, make_entry_event}
use maple_next.TurnState.Json.{Python}
use maple_next.TurnStateRows.{LocalRow, local_row, local_memory_from_row}
use maple_next.Repository.{AbilityRow, Exec, ◌>>=◌, ◌>>◌, gets, modify, lift, guard, constraint}
use maple_next.Repository.Order.{read_found}
use maple_next.Repository.TurnStates.{find_state_row}

-- `max(n, m)`
abbrev larger : ℕ → ℕ → ℕ
larger n m = if ltb n m then m else n

module _ (session_id match_id : String) (generation : ℕ) where
  unfoldable pub is_local : String → String → LocalRow → Bool
  is_local side name row =
      row.session_id == session_id
      && row.match_id == match_id
      && row.generation == generation
      && row.side == side
      && row.pokemon_name == name

  -- In place of the row with the key, or as a new row.
  unfoldable pub put_local : LocalRow → List LocalRow → List LocalRow
  unfolding is_local
  put_local new rows =
      let here = is_local new.side new.pokemon_name in
      if any_of here rows then map (λ row. if here row then new else row) rows else new ∷ rows

  unfoldable pub upsert_pokemon_local_state : String → PokemonLocalMemory → Exec Unit
  unfolding put_local local_row
  upsert_pokemon_local_state side memory = do
    guard (side != "SELF" && side != "OPPONENT") (value_error "side must be SELF or OPPONENT")
    let new = local_row session_id match_id generation side memory
    modify (λ s. record s { local_states = put_local new s.local_states })

  unfoldable pub get_pokemon_local_state :
      Python → String → String → Exec (Option PokemonLocalMemory)
  unfolding is_local
  get_pokemon_local_state py side name = do
    rows ← gets (λ s. s.local_states)
    lift (read_found (local_memory_from_row py) (find_first (is_local side name) rows))

  unfoldable pub is_ability_of : String → AbilityRow → Bool
  is_ability_of entity row =
      row.session_id == session_id
      && row.match_id == match_id
      && row.generation == generation
      && row.opponent_entity_id == entity

  -- `ability is None or not ability.strip() or ability.strip() == "不明"`
  unfoldable pub is_unresolved_ability : Option String → Bool
  is_unresolved_ability none = true
  is_unresolved_ability (some ability) = is_blank ability || strip ability == "不明"

  abbrev ability_row : String → String → String → AbilityRow
  ability_row entity species ability = record {
    session_id = session_id;
    match_id = match_id;
    generation = generation;
    opponent_entity_id = entity;
    species = species;
    ability = ability;
  }

  abbrev put_ability : AbilityRow → List AbilityRow → List AbilityRow
  put_ability new rows =
      let here = is_ability_of new.opponent_entity_id in
      if any_of here rows then map (λ row. if here row then new else row) rows else new ∷ rows

  -- The rows after an ability is set, or is left unresolved.
  unfoldable pub set_ability : String → String → Option String → List AbilityRow → List AbilityRow
  unfolding is_ability_of
  set_ability entity species none rows = keep (λ row. not (is_ability_of entity row)) rows
  set_ability entity species (some ability) rows =
      if is_unresolved_ability (some ability)
      then keep (λ row. not (is_ability_of entity row)) rows
      else put_ability (ability_row entity (strip species) (strip ability)) rows

  unfoldable pub set_opponent_ability_memory : String → String → Option String → Exec Unit
  unfolding set_ability
  set_opponent_ability_memory opponent_entity_id species ability = do
    guard (is_blank opponent_entity_id || is_blank species)
        (value_error "opponent entity and species must be explicit")
    modify λ s. record s {
      abilities = set_ability (strip opponent_entity_id) species ability s.abilities;
    }

  abbrev ability_of : Option AbilityRow → Option String
  ability_of none = none
  ability_of (some row) = some row.ability

  unfoldable pub get_opponent_ability_memory : String → Exec (Option String)
  unfolding is_ability_of
  get_opponent_ability_memory opponent_entity_id =
      gets (λ s. ability_of (find_first (is_ability_of (strip opponent_entity_id)) s.abilities))

  unfoldable pub is_entry_of : OpponentEntryEvent → Bool
  is_entry_of e = e.session_id == session_id && e.match_id == match_id && e.generation == generation

  -- `COALESCE(MAX(entry_ordinal), 0)` over the entries of the match.
  unfoldable pub last_ordinal : List OpponentEntryEvent → ℕ
  unfolding is_entry_of
  last_ordinal [] = 0
  last_ordinal (e ∷ es) =
      let rest = last_ordinal es in if is_entry_of e then larger e.entry_ordinal rest else rest

  unfoldable pub next_opponent_entry_ordinal : Exec ℕ
  unfolding last_ordinal
  next_opponent_entry_ordinal = gets (λ s. last_ordinal s.entry_events + 1)

  abbrev is_pending : OpponentEntryEvent → Bool
  is_pending e = is_entry_of e && is_none e.handled_at_utc

  abbrev higher_of : OpponentEntryEvent → Option OpponentEntryEvent → Option OpponentEntryEvent
  higher_of e none = some e
  higher_of e (some other) = if ltb e.entry_ordinal other.entry_ordinal then some other else some e

  -- `ORDER BY entry_ordinal DESC LIMIT 1` over the entries that nobody has handled.
  unfoldable pub pending_entry : List OpponentEntryEvent → Option OpponentEntryEvent
  unfolding is_entry_of
  pending_entry [] = none
  pending_entry (e ∷ es) =
      let rest = pending_entry es in if is_pending e then higher_of e rest else rest

  unfoldable pub get_pending_opponent_entry_event : Exec (Option OpponentEntryEvent)
  unfolding pending_entry
  get_pending_opponent_entry_event = do
    rows ← gets (λ s. s.entry_events)
    lift (read_found make_entry_event (pending_entry rows))

unfoldable pub append_opponent_entry_event : OpponentEntryEvent → Exec Unit
unfolding is_entry_of find_state_row
append_opponent_entry_event e = do
  rows ← gets (λ s. s.entry_events)
  states ← gets (λ s. s.confirmed_states)
  constraint (any_of (λ row. row.event_id == e.event_id) rows) "opponent_entry_events.event_id"
  constraint (any_of (λ row. row.confirmed_state_id == e.confirmed_state_id) rows)
      "opponent_entry_events.confirmed_state_id"
  constraint
      (any_of
        (λ row.
          is_entry_of e.session_id e.match_id e.generation row
          && row.entry_ordinal == e.entry_ordinal)
        rows)
      "opponent_entry_events.session_id, match_id, generation, entry_ordinal"
  constraint (is_none (find_state_row e.confirmed_state_id states)) "FOREIGN KEY"
  modify (λ s. record s { entry_events = e ∷ s.entry_events })

abbrev to_handle : String → OpponentEntryEvent → Bool
to_handle event_id row = row.event_id == event_id && is_none row.handled_at_utc

unfoldable pub handle_rows : String → String → List OpponentEntryEvent → List OpponentEntryEvent
handle_rows event_id now rows =
    map (λ row. if to_handle event_id row then record row { handled_at_utc = some now } else row)
      rows

-- No row that was still open: an event that was handled before is left alone, an unknown one raises.
unfoldable pub mark_opponent_entry_event_handled : String → String → Exec Unit
unfolding handle_rows
mark_opponent_entry_event_handled event_id now = do
  rows ← gets (λ s. s.entry_events)
  modify (λ s. record s { entry_events = handle_rows event_id now s.entry_events })
  guard
      (not (any_of (to_handle event_id) rows)
        && is_none (find_first (λ row. row.event_id == event_id) rows))
      (key_error event_id)
