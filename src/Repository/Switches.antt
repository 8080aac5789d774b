-- ===== src/Repository/Switches.antt =====
-- src/maple_next/persistence/legal_switch_store.py. A row holds the columns of the confirmation.
use maple_next.Base.{
  String, Bool, not, ◌&&◌, Option, List, ◌∷◌, any_of, find_first, is_none, Result, ◌>>=◌ as bind,
  if◌then◌else◌, ◌==◌, string_eq, map,
}
use maple_next.TurnState.Records.{TurnIdentity, make_identity, identity_eq, make_confirmation}
use maple_next.LegalSwitches.{LegalSwitchConfirmation, is_unresolved, make_switch_confirmation}
use maple_next.Repository.{Exec, ◌>>=◌, ◌>>◌, gets, modify, lift, constraint}
use maple_next.Repository.Order.{read_found}
use maple_next.Repository.Rows.{find_applied}
use maple_next.Repository.TurnStates.{find_state_row}

-- The eight columns of the binding.
unfoldable pub is_bound_to : TurnIdentity → String → String → LegalSwitchConfirmation → Bool
is_bound_to identity state_id selection_id row =
    row.identity == identity
    && row.based_on_confirmed_state_id == state_id
    && row.applied_selection_id == selection_id

abbrev pub same_binding : LegalSwitchConfirmation → LegalSwitchConfirmation → Bool
same_binding new row =
    is_bound_to new.identity new.based_on_confirmed_state_id new.applied_selection_id row

-- In place of the row with the binding, or as a new row.
unfoldable pub put_confirmation :
    LegalSwitchConfirmation → List LegalSwitchConfirmation → List LegalSwitchConfirmation
put_confirmation new rows =
    if any_of (same_binding new) rows
    then map (λ row. if same_binding new row then new else row) rows
    else new ∷ rows

unfoldable pub upsert_legal_switch_confirmation : LegalSwitchConfirmation → Exec Unit
unfolding put_confirmation is_bound_to find_state_row find_applied
upsert_legal_switch_confirmation new = do
  rows ← gets (λ s. s.switch_confirmations)
  states ← gets (λ s. s.confirmed_states)
  selections ← gets (λ s. s.applied_selections)
  constraint (is_unresolved new.status) "legal_switch_confirmations.status"
  constraint
      (any_of (λ row. not (same_binding new row) && row.confirmation_id == new.confirmation_id)
        rows)
      "legal_switch_confirmations.confirmation_id"
  constraint (is_none (find_state_row new.based_on_confirmed_state_id states)) "FOREIGN KEY"
  constraint (is_none (find_applied new.applied_selection_id selections)) "FOREIGN KEY"
  modify (λ s. record s { switch_confirmations = put_confirmation new s.switch_confirmations })

unfoldable pub switch_confirmation_from_row :
    LegalSwitchConfirmation → Result LegalSwitchConfirmation
switch_confirmation_from_row row = bind (make_identity row.identity) λ identity.
    bind (make_confirmation row.confirmation) λ confirmation.
      make_switch_confirmation (record row { identity = identity; confirmation = confirmation })

unfoldable pub get_legal_switch_confirmation :
    TurnIdentity → String → String → Exec (Option LegalSwitchConfirmation)
unfolding is_bound_to
get_legal_switch_confirmation identity state_id selection_id = do
  rows ← gets (λ s. s.switch_confirmations)
  lift (
      read_found switch_confirmation_from_row
        (find_first (is_bound_to identity state_id selection_id) rows))
