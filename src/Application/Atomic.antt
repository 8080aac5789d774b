-- ===== src/Application/Atomic.antt =====
-- The commands of src/maple_next/application that check their arguments before their transaction.
use maple_next.Base.{String, Bool, List, Option, none, some, Error, refl}
use maple_next.Enums.{MatchOutcome}
use maple_next.TeamBuild.{TeamBuild}
use maple_next.SelectionRequest.{SelectionAdviceRequest}
use maple_next.Models.{BattleSession, MatchExportRecord, RecordedAction}
use maple_next.Repository.{Exec, required, ◌>>=◌}
use maple_next.Repository.Sessions.{load_active_session}
use maple_next.Repository.Rows.{get_match_outcome, get_match_export}
use maple_next.Application.Session.{require_active_session}
use maple_next.Application.Export.{ExportWorld, Payload}
use maple_next.Application.Export.Run.{write_export, export_match}
use maple_next.Repository.Atomic.{
  IsReadOnly, gets-IsReadOnly, lift-IsReadOnly, lift_only-IsAtomic, if-IsAtomic, read-IsAtomic,
  IsAtomic, transaction-IsAtomic, lift-IsAtomic, rescue-IsAtomic,
}
use maple_next.Application.Match.{abort_match, end_match}
use maple_next.Application.Selection.{confirm_selection_facts, apply_selection}
use maple_next.Application.Turn.{
  TurnEntry, ActionEntry, confirm_turn_facts, record_actual_action, record_action,
}

pub abort_match-IsAtomic : (h : Bool) → IsAtomic (abort_match h)
unfolding abort_match
abort_match-IsAtomic h = lift-IsAtomic _ _ λ _. transaction-IsAtomic _

pub end_match-IsAtomic : (m : MatchOutcome) (h : Bool) (now : String) → IsAtomic (end_match m h now)
unfolding end_match
end_match-IsAtomic m h now = lift-IsAtomic _ _ λ _. transaction-IsAtomic _

pub confirm_selection_facts-IsAtomic :
    (sha256 : TeamBuild → String) (payload_hash : SelectionAdviceRequest → String) (id : String)
    (self_team opponent_team : List String) (build : Option TeamBuild)
    → IsAtomic (confirm_selection_facts sha256 payload_hash id self_team opponent_team build)
unfolding confirm_selection_facts
confirm_selection_facts-IsAtomic sha256 payload_hash id self_team opponent_team build =
    rescue-IsAtomic _ _ _ λ _. transaction-IsAtomic _

pub apply_selection-IsAtomic :
    (id : String) (three : List String) (lead : String) (h : Bool)
    → IsAtomic (apply_selection id three lead h)
unfolding apply_selection
apply_selection-IsAtomic id three lead h = lift-IsAtomic _ _ λ _. transaction-IsAtomic _

pub confirm_turn_facts-IsAtomic :
    (id : String) (entry : TurnEntry) (h : Bool) → IsAtomic (confirm_turn_facts id entry h)
unfolding confirm_turn_facts
confirm_turn_facts-IsAtomic id entry h = lift-IsAtomic _ _ λ _. transaction-IsAtomic _

pub record_action-IsAtomic :
    (check complete : RecordedAction → Exec Unit) (id : String) (entry : ActionEntry) (h : Bool)
    → IsAtomic (record_action check complete id entry h)
unfolding record_action
record_action-IsAtomic check complete id entry h =
    lift-IsAtomic _ _ λ _. lift-IsAtomic _ _ λ _. lift-IsAtomic _ _ λ _. transaction-IsAtomic _

pub record_actual_action-IsAtomic :
    (id : String) (entry : ActionEntry) (h : Bool) → IsAtomic (record_actual_action id entry h)
unfolding record_actual_action
record_actual_action-IsAtomic id entry h = record_action-IsAtomic _ _ id entry h

require_active_session-IsReadOnly : IsReadOnly require_active_session
unfolding require_active_session load_active_session required ◌>>=◌
require_active_session-IsReadOnly = record { at = λ s. refl }

get_match_export-IsReadOnly : (id : String) → IsReadOnly (get_match_export id)
unfolding get_match_export
get_match_export-IsReadOnly id = gets-IsReadOnly _

get_match_outcome-IsReadOnly : (id : String) → IsReadOnly (get_match_outcome id)
unfolding get_match_outcome
get_match_outcome-IsReadOnly id = gets-IsReadOnly _

required-IsReadOnly : {A : Type 0} (e : Error) (o : Option A) → IsReadOnly (required e o)
unfolding required
required-IsReadOnly e o = lift-IsReadOnly _

ruleset atomic_rules = (
  transaction-IsAtomic, lift-IsAtomic, lift_only-IsAtomic, if-IsAtomic, read-IsAtomic,
  required-IsReadOnly, require_active_session-IsReadOnly, get_match_export-IsReadOnly,
  get_match_outcome-IsReadOnly,
)

module _ (w : ExportWorld) where
  write_export-IsAtomic :
      (session : BattleSession) (payload : Payload) (now : String)
      (existing : Option MatchExportRecord)
      → IsAtomic (write_export w session payload now existing)
  write_export-IsAtomic session payload now none = search atomic_rules depth 40
  write_export-IsAtomic session payload now (some existing) = search atomic_rules depth 40

  pub export_match-IsAtomic : (now : String) → IsAtomic (export_match w now)
  unfolding export_match
  export_match-IsAtomic now = search (atomic_rules, write_export-IsAtomic) depth 40
