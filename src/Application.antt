-- ===== src/Application.antt =====
-- src/maple_next/application: the commands of `BattleApplication` (service.py) and `MatchApplication`
-- (match_service.py). Fresh ids and times are arguments.
pub mod Session
pub mod Match
pub mod Export
pub mod Gemini
pub mod Selection
pub mod Turn
pub mod Rich
pub mod Switches
pub mod Stores
pub mod Hydrated
pub mod Phases
pub mod Progress
pub mod Recorded
pub mod SwitchLaws
pub mod TurnAdvice
pub mod Jobs
pub mod Effect
pub mod Coherence
pub mod Binding
pub mod Lanes
pub mod Atomic
pub mod Command
pub mod Steps
pub mod Exclusion
pub mod Duplicates
pub mod Restart
pub mod SelectionResult
