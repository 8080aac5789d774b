-- ===== src/TurnState.antt =====
-- src/maple_next/domain/turn_state.py: confirmed Turn states, the observed delta of a Turn, the
-- draft derived from both, and its promotion by a human confirmation.
pub mod Known
pub mod Side
pub mod Records
pub mod Actions
pub mod Same
pub mod Json
pub mod SideJson
pub mod Codec
pub mod RoundTrip
pub mod Lifecycle
pub mod Fields
pub mod Sides
pub mod Bindings
pub mod Derivation
pub mod History
