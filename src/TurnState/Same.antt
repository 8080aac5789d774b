-- ===== src/TurnState/Same.antt =====
-- Equality of the records of src/maple_next/domain/turn_state.py, as the dataclasses compare them.
use maple_next.Base.{String, List, Eq, discrete_eq, String-discrete, ℕ_discrete}
use maple_next.Enums.{HpBucket-discrete}
use maple_next.TurnState.Known.{
  KnowledgeStatus, ProvenanceStep, Known, ChangeObservation, FieldDelta,
}
use maple_next.TurnState.Side.{ℤ, SideState, SideDelta}
use maple_next.TurnState.Records.{
  TurnIdentity-discrete, ConfirmationMeta, ConfirmedTurnState, ActionResultDelta,
}

unfoldable pub KnowledgeStatus-discrete : Discrete KnowledgeStatus
KnowledgeStatus-discrete = hlevel

unfoldable pub ProvenanceStep-discrete : Discrete ProvenanceStep
ProvenanceStep-discrete = hlevel

unfoldable pub ℤ-discrete : Discrete ℤ
ℤ-discrete = hlevel ℕ_discrete

unfoldable pub Known-discrete {ℓ} : {A : Type ℓ} → Discrete A → Discrete (Known A)
Known-discrete d = hlevel (d, KnowledgeStatus-discrete, ProvenanceStep-discrete)

unfoldable pub names_known-discrete : Discrete (Known (List String))
names_known-discrete = Known-discrete (hlevel String-discrete)

unfoldable pub SideState-discrete : Discrete SideState
SideState-discrete = hlevel (
  Known-discrete String-discrete,
  Known-discrete HpBucket-discrete,
  Known-discrete ℤ-discrete,
  names_known-discrete,
)

unfoldable pub ConfirmationMeta-discrete : Discrete ConfirmationMeta
ConfirmationMeta-discrete = hlevel String-discrete

unfoldable pub ConfirmedTurnState-discrete : Discrete ConfirmedTurnState
ConfirmedTurnState-discrete = hlevel (
  String-discrete,
  TurnIdentity-discrete,
  SideState-discrete,
  ConfirmationMeta-discrete,
  Known-discrete String-discrete,
)

instance abbrev pub confirmed_state_eq : Eq ConfirmedTurnState
confirmed_state_eq = discrete_eq ConfirmedTurnState-discrete

-- Deltas and Turns.
unfoldable pub ChangeObservation-discrete : Discrete ChangeObservation
ChangeObservation-discrete = hlevel

unfoldable pub FieldDelta-discrete {ℓ} : {A : Type ℓ} → Discrete A → Discrete (FieldDelta A)
FieldDelta-discrete d = hlevel (d, ChangeObservation-discrete, ProvenanceStep-discrete)

unfoldable pub names_delta-discrete : Discrete (FieldDelta (List String))
names_delta-discrete = FieldDelta-discrete (hlevel String-discrete)

unfoldable pub SideDelta-discrete : Discrete SideDelta
SideDelta-discrete = hlevel (
  FieldDelta-discrete String-discrete,
  FieldDelta-discrete HpBucket-discrete,
  FieldDelta-discrete ℤ-discrete,
  names_delta-discrete,
)

unfoldable pub ActionResultDelta-discrete : Discrete ActionResultDelta
ActionResultDelta-discrete = hlevel (
  String-discrete,
  TurnIdentity-discrete,
  SideDelta-discrete,
  ConfirmationMeta-discrete,
  FieldDelta-discrete String-discrete,
)

instance abbrev pub delta_eq : Eq ActionResultDelta
delta_eq = discrete_eq ActionResultDelta-discrete
