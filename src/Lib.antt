-- ===== src/Lib.antt =====
-- maple-next keeps one operator's record of a match and asks a provider for advice. This library models
-- its domain records, its repository and the commands of its application layer.
--
-- Parts, and the code they model:
--   Enums, Models, Envelopes   src/maple_next/domain/enums.py, domain/models.py, domain/match_models.py,
--                              workers/contracts/models.py: data types and records of the same names; a
--                              `__post_init__` is a function make_… that returns a Result.
--   TurnState                  domain/turn_state.py: what is known of a Turn, the derivation of the next
--                              Turn's draft (_derive_field, _derive_side, derive_next_turn_state_draft)
--                              and its promotion (confirm_next_turn_state). Known, Side, Records and
--                              Lifecycle model; Fields, Sides, Bindings, Derivation, History prove.
--                              Actions holds the match-local memory, the entries of the opponent and the
--                              confirmation of a legal action; Same compares confirmed states. Json and
--                              SideJson hold the dicts of the JSON columns and their decoders; Codec and
--                              RoundTrip prove.
--   TurnStateRows              persistence/turn_state_store.py: its rows, what is written to them and what
--                              is read from them; OpponentAction has the stored form of an action.
--   LegalSwitches              domain/legal_switches.py: derive_legal_switch_candidates,
--                              confirm_legal_switches; Laws and Proposed prove.
--   BattleMemory               domain/battle_memory.py: Chain (_walk_confirmed_state_chain), Build
--                              (build_battle_memory), Projection (project_selected_three_builds);
--                              Termination, Rows and Turns prove.
--   BattleEvents               domain/battle_events.py: the quick events on stat stages.
--   ProviderGate               domain/turn_state_projection.py: evaluate_provider_ready_gate;
--                              Ready and Switches prove.
--   TeamBuild                  domain/team_build.py: the value objects of a detailed team.
--   SelectionRequest           providers/selection_request.py: the request of the Selection lane.
--   Dispatch                   providers/turn_boundary.py: decide_turn_advice_dispatch.
--   Repository                 persistence/: the tables of the SQLite repository as lists of rows, the
--                              newest row first, with the uniqueness constraints of schema.py. A command
--                              is a function from a repository to a result and a repository; what it
--                              wrote before an exception stays until `transaction` rolls it back.
--                              Sessions, Jobs, Rows, Attempts and Gemini hold one table group each.
--                              Run, Quiet, Atomic and Keeps are the logics in which the commands are
--                              proved; Unchanged, Lanes and LanesKept apply them to the table operations;
--                              Recovery, Ledger and Handover are about single tables. TurnStates,
--                              Completions, Memories (turn_state_store.py) and Switches
--                              (legal_switch_store.py) hold the tables of a detailed match, with Order
--                              for what ORDER BY does; StoreLaws and SwitchLaws are about them, Elsewhere
--                              says which tables a write leaves alone, Lands where a write ends, and
--                              Trace and Forward follow a command that succeeded to the rows that it read
--                              and wrote, or towards its success.
--   Application                application/service.py and application/match_service.py: Session, Match,
--                              Export (export_match), Gemini (the production lane of the Selection
--                              advice), Selection, Turn, TurnAdvice, Jobs, SelectionResult, Rich (the
--                              rich recording of an action and the two phases of the next Turn), Switches
--                              (the legal switches of the Turn) and Stores model the commands; Effect
--                              says what a command may do to the table of sessions, Command makes the
--                              commands one step relation, Steps proves what a step does and what every
--                              reachable repository is like. Atomic, Lanes, Exclusion, Coherence,
--                              Binding, Duplicates, Restart, Hydrated, Phases, Progress, Recorded and
--                              SwitchLaws prove.
--   Tests                      the theorems at concrete inputs.
--
-- A command of the application reads the active session and other rows, checks its guards in the order
-- of the code, and writes rows; ids and times that the code draws (uuid4, now) are arguments. The digests
-- (sha256, payload_hash), the building of a Turn request (request_hash) and the reading of a Turn answer
-- (read_body) are parameters of the commands that use them, as are the number that a failure's text names
-- (read_int) and, for export_match, the files, the digest of bytes, the payloads and their parsers
-- (ExportWorld).
--
-- Numbers are natural numbers, as the checks of the code require where they come from outside; a stat
-- stage is an integer. The loops of the code are recursions on lists, but for the walk along the confirmed
-- states in BattleMemory.Chain: it runs on fuel, one round for each state of the match and one more, and
-- each round marks a state that was not marked before.
--
-- A JSON column holds the dict that json.dumps is given, since the text is made and read by Python's json;
-- what Python's str and int make of a JSON value of another kind is a parameter (Python). The two phases of
-- next_turn_with_action_result are two transactions: derive_phase and advance_phase may run on different
-- repositories, as when another command runs between them.
--
-- The command of a step has a purpose (purpose_of in Application/Command.antt): to leave the sessions alone,
-- to edit the active one, to bring it to a state, or to open a match; must_change says where it has to have
-- done so. The paths of exports are texts that stand for normalized paths. The outcome of a provider attempt is one of the three words of schema.py; the
-- code raises on any other before it writes.
--
-- Not modelled: time-stamp columns; foreign keys and the re-validation of rows on reading, but for the
-- tables of a detailed match; a JSON number with a fraction; the rich lane of the Turn advice; the payloads
-- of an export; the user interface, capture, recognition, population data, transports and scripts.
pub mod Base
pub mod Enums
pub mod TurnState
pub mod TurnStateRows
pub mod TeamBuild
pub mod Models
pub mod Envelopes
pub mod LegalSwitches
pub mod BattleMemory
pub mod BattleEvents
pub mod ProviderGate
pub mod SelectionRequest
pub mod Dispatch
pub mod Repository
pub mod Application
pub mod Tests
