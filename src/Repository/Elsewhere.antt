-- ===== src/Repository/Elsewhere.antt =====
-- Actions that leave the sessions and the job ledger as they are: the reads and writes of the tables of
-- Turn states, memories and legal switches.
use maple_next.Base.{ℕ, String, ◌≡◌, refl, sym, subst, ◌∙◌, arith, Option, Result, ok, err, Error}
use maple_next.TurnState.Records.{ConfirmedTurnState, ActionResultDelta, NextTurnStateDraft}
use maple_next.TurnState.Actions.{PokemonLocalMemory, OpponentEntryEvent}
use maple_next.TurnState.Json.{Python}
use maple_next.LegalSwitches.{LegalSwitchConfirmation}
use maple_next.TurnStateRows.{FixedEvidenceMetadata, CompletionRow}
use maple_next.Repository.{Repository, Exec, ◌>>=◌, lift, required, rescue}
use maple_next.Repository.TurnStates.{
  append_fixed_evidence_metadata, append_confirmed_turn_state, append_action_result_delta,
  upsert_next_turn_state_draft, get_confirmed_turn_state,
  get_latest_confirmed_turn_state_for_identity, list_action_result_deltas_based_on,
}
use maple_next.Repository.Completions.{Completion, insert_completion, append_rich_action_completion}
use maple_next.Repository.Switches.{upsert_legal_switch_confirmation}
use maple_next.Repository.Memories.{
  get_pokemon_local_state, upsert_pokemon_local_state, set_opponent_ability_memory,
  append_opponent_entry_event, mark_opponent_entry_event_handled,
}
use maple_next.Repository.Quiet.{Quiet}
use maple_next.Repository.Keeps.{Keeps}
use maple_next.Repository.Lanes.{Bound, AllBind}

pub record Elsewhere {A : Type 0} (m : Exec A) : Type 0 where
  pub sessions : (s : Repository) → (m s).1.sessions ≡ s.sessions
  pub jobs : (s : Repository) → (m s).1.jobs ≡ s.jobs

module _ {A : Type 0} (m : Exec A) (k : Elsewhere m) where
  pub Elsewhere-Quiet : Quiet m
  Elsewhere-Quiet = record { keeps = k.sessions }

  pub Elsewhere-Bound : Keeps Bound m
  Elsewhere-Bound = record { kept = λ s i. subst AllBind (sym (k.jobs s)) i }

module _ {A : Type 0} where
  pub Elsewhere-lift : (r : Result A) → Elsewhere (lift r)
  unfolding lift
  Elsewhere-lift r = record { sessions = λ s. refl; jobs = λ s. refl }

  pub Elsewhere-required : (e : Error) (o : Option A) → Elsewhere (required e o)
  unfolding required lift
  Elsewhere-required e o = record { sessions = λ s. refl; jobs = λ s. refl }

  rescued :
      (f : Error → Error) (r : Result A) (s s' : Repository)
      → s'.sessions ≡ s.sessions
      → s'.jobs ≡ s.jobs
      → ((rescue f (λ _. (r, s')) s).1.sessions ≡ s.sessions)
        × ((rescue f (λ _. (r, s')) s).1.jobs ≡ s.jobs)
  unfolding rescue
  rescued f (ok a) s s' h j = (h, j)
  rescued f (err e) s s' h j = (h, j)

  pub Elsewhere-rescue : (f : Error → Error) (m : Exec A) → Elsewhere m → Elsewhere (rescue f m)
  unfolding rescue
  Elsewhere-rescue f m k = record {
    sessions = λ s. let (r, s') = m s in (rescued f r s s' (k.sessions s) (k.jobs s)).0;
    jobs = λ s. let (r, s') = m s in (rescued f r s s' (k.sessions s) (k.jobs s)).1;
  }

module _ {A B : Type 0} (f : A → Exec B) (k : (a : A) → Elsewhere (f a)) where
  carried :
      (r : Result A) (s s' : Repository)
      → s'.sessions ≡ s.sessions
      → s'.jobs ≡ s.jobs
      → (((lift r >>= f) s').1.sessions ≡ s.sessions) × (((lift r >>= f) s').1.jobs ≡ s.jobs)
  unfolding ◌>>=◌ lift
  carried (ok a) s s' h j = ((k a).sessions s' ∙ h, (k a).jobs s' ∙ j)
  carried (err e) s s' h j = (h, j)

  pub Elsewhere-bind : (m : Exec A) → Elsewhere m → Elsewhere (m >>= f)
  unfolding ◌>>=◌ lift
  Elsewhere-bind m km = record {
    sessions = λ s. let (r, s') = m s in (carried r s s' (km.sessions s) (km.jobs s)).0;
    jobs = λ s. let (r, s') = m s in (carried r s s' (km.sessions s) (km.jobs s)).1;
  }

pub append_fixed_evidence_metadata-Elsewhere :
    (e : FixedEvidenceMetadata) → Elsewhere (append_fixed_evidence_metadata e)
unfolding append_fixed_evidence_metadata ◌>>=◌
append_fixed_evidence_metadata-Elsewhere e = record {
  sessions = λ s. ground arith;
  jobs = λ s. ground arith;
}

pub append_confirmed_turn_state-Elsewhere :
    (state : ConfirmedTurnState) → Elsewhere (append_confirmed_turn_state state)
unfolding append_confirmed_turn_state ◌>>=◌
append_confirmed_turn_state-Elsewhere state = record {
  sessions = λ s. ground arith;
  jobs = λ s. ground arith;
}

pub append_action_result_delta-Elsewhere :
    (delta : ActionResultDelta) → Elsewhere (append_action_result_delta delta)
unfolding append_action_result_delta ◌>>=◌
append_action_result_delta-Elsewhere delta = record {
  sessions = λ s. ground arith;
  jobs = λ s. ground arith;
}

pub upsert_next_turn_state_draft-Elsewhere :
    (draft : NextTurnStateDraft) → Elsewhere (upsert_next_turn_state_draft draft)
unfolding upsert_next_turn_state_draft ◌>>=◌
upsert_next_turn_state_draft-Elsewhere draft = record {
  sessions = λ s. ground arith;
  jobs = λ s. ground arith;
}

pub get_confirmed_turn_state-Elsewhere :
    (py : Python) (id : String) → Elsewhere (get_confirmed_turn_state py id)
unfolding get_confirmed_turn_state ◌>>=◌
get_confirmed_turn_state-Elsewhere py id = record {
  sessions = λ s. ground arith;
  jobs = λ s. ground arith;
}

pub get_latest_confirmed_turn_state_for_identity-Elsewhere :
    (py : Python) (a b : String) (n : ℕ)
    → Elsewhere (get_latest_confirmed_turn_state_for_identity py a b n)
unfolding get_latest_confirmed_turn_state_for_identity ◌>>=◌
get_latest_confirmed_turn_state_for_identity-Elsewhere py a b n = record {
  sessions = λ s. ground arith;
  jobs = λ s. ground arith;
}

pub list_action_result_deltas_based_on-Elsewhere :
    (py : Python) (id : String) → Elsewhere (list_action_result_deltas_based_on py id)
unfolding list_action_result_deltas_based_on ◌>>=◌
list_action_result_deltas_based_on-Elsewhere py id = record {
  sessions = λ s. ground arith;
  jobs = λ s. ground arith;
}

pub insert_completion-Elsewhere : (row : CompletionRow) → Elsewhere (insert_completion row)
unfolding insert_completion ◌>>=◌
insert_completion-Elsewhere row = record { sessions = λ s. ground arith; jobs = λ s. ground arith }

pub upsert_legal_switch_confirmation-Elsewhere :
    (c : LegalSwitchConfirmation) → Elsewhere (upsert_legal_switch_confirmation c)
unfolding upsert_legal_switch_confirmation ◌>>=◌
upsert_legal_switch_confirmation-Elsewhere c = record {
  sessions = λ s. ground arith;
  jobs = λ s. ground arith;
}

pub get_pokemon_local_state-Elsewhere :
    (a b : String) (n : ℕ) (py : Python) (side name : String)
    → Elsewhere (get_pokemon_local_state a b n py side name)
unfolding get_pokemon_local_state ◌>>=◌
get_pokemon_local_state-Elsewhere a b n py side name = record {
  sessions = λ s. ground arith;
  jobs = λ s. ground arith;
}

pub upsert_pokemon_local_state-Elsewhere :
    (a b : String) (n : ℕ) (side : String) (m : PokemonLocalMemory)
    → Elsewhere (upsert_pokemon_local_state a b n side m)
unfolding upsert_pokemon_local_state ◌>>=◌
upsert_pokemon_local_state-Elsewhere a b n side m = record {
  sessions = λ s. ground arith;
  jobs = λ s. ground arith;
}

pub set_opponent_ability_memory-Elsewhere :
    (a b : String) (n : ℕ) (entity species : String) (ability : Option String)
    → Elsewhere (set_opponent_ability_memory a b n entity species ability)
unfolding set_opponent_ability_memory ◌>>=◌
set_opponent_ability_memory-Elsewhere a b n entity species ability = record {
  sessions = λ s. ground arith;
  jobs = λ s. ground arith;
}

pub append_opponent_entry_event-Elsewhere :
    (e : OpponentEntryEvent) → Elsewhere (append_opponent_entry_event e)
unfolding append_opponent_entry_event ◌>>=◌
append_opponent_entry_event-Elsewhere e = record {
  sessions = λ s. ground arith;
  jobs = λ s. ground arith;
}

pub mark_opponent_entry_event_handled-Elsewhere :
    (id now : String) → Elsewhere (mark_opponent_entry_event_handled id now)
unfolding mark_opponent_entry_event_handled ◌>>=◌
mark_opponent_entry_event_handled-Elsewhere id now = record {
  sessions = λ s. ground arith;
  jobs = λ s. ground arith;
}

ruleset steps_elsewhere = (
  Elsewhere-lift, Elsewhere-required, Elsewhere-rescue, Elsewhere-bind,
  get_confirmed_turn_state-Elsewhere, append_action_result_delta-Elsewhere,
  insert_completion-Elsewhere,
)

pub append_rich_action_completion-Elsewhere :
    (py : Python) (c : Completion) → Elsewhere (append_rich_action_completion py c)
unfolding append_rich_action_completion
append_rich_action_completion-Elsewhere py c = search steps_elsewhere depth 30
