-- ===== src/Application/SwitchLaws.antt =====
-- Proofs about `confirm_legal_switches` of src/maple_next/application/service.py.
use maple_next.Base.{
  ℕ, String, Bool, true, false, not, ◌≡◌, refl, sym, ap, subst, ◌∙◌, arith, Option, none, some,
  List, [], ◌∷◌, Bool-cases, inl, inr, Result, Error, ok, raise_if, member, legal_switch_error, map,
  strip, err, find_first, if◌then◌else◌, >>=-eq-ok, string_eq, ◌==◌,
}
use maple_next.Enums.{turn_reviewed}
use maple_next.TurnState.Records.{
  TurnIdentity, make_identity, ConfirmationMeta, make_confirmation, identity_eq,
}
use maple_next.TurnState.Json.{Python}
use maple_next.Models.{AppliedSelectionSnapshot}
use maple_next.LegalSwitches.{
  LegalSwitchStatus, LegalSwitchConfirmation, LocalMemory, make_switch_confirmation,
  confirm_legal_switches, check_switches,
}
use maple_next.Repository.{Repository, ◌>>=◌, lift, rescue}
use maple_next.Repository.Rows.{get_applied_selection}
use maple_next.Repository.Memories.{get_pokemon_local_state}
use maple_next.Repository.Order.{read_found}
use maple_next.Repository.Run.{Run, Run-bind, Run-transaction, Run-ok, Given}
use maple_next.Repository.Atomic.{IsReadOnly, bind-IsReadOnly, lift-IsReadOnly}
use maple_next.Repository.Trace.{
  rescue-eq-ok, rescue-IsReadOnly, lift-eq-ok, Now, looks, makes, needs, passes,
}
use maple_next.Repository.Switches.{
  is_bound_to, put_confirmation, upsert_legal_switch_confirmation, switch_confirmation_from_row,
  get_legal_switch_confirmation,
}
use maple_next.Repository.SwitchLaws.{find-put_confirmation}
use maple_next.Application.Switches.{
  SwitchBinding, current_legal_switch_binding, self_local_memory_by_name, asked, rejected,
  confirm_current_switches,
}
use maple_next.Application.Effect.Rich.{
  require_session-IsReadOnly, get_turn-IsReadOnly, latest-IsReadOnly,
}

-- The confirmation passed its constructors.
record IsMade (c : LegalSwitchConfirmation) : Type 0 where
  identity : make_identity c.identity ≡ ok c.identity
  confirmation : make_confirmation c.confirmation ≡ ok c.confirmation
  made : make_switch_confirmation c ≡ ok c

pub get_applied_selection-IsReadOnly : (id : String) → IsReadOnly (get_applied_selection id)
unfolding get_applied_selection ◌>>=◌
get_applied_selection-IsReadOnly id = record { at = λ s. ground arith }

get_pokemon_local_state-IsReadOnly :
    (a b : String) (n : ℕ) (py : Python) (side name : String)
    → IsReadOnly (get_pokemon_local_state a b n py side name)
unfolding get_pokemon_local_state ◌>>=◌
get_pokemon_local_state-IsReadOnly a b n py side name = record { at = λ s. ground arith }

module _ (py : Python) where
  memory-IsReadOnly :
      (i : TurnIdentity) (names : List String) → IsReadOnly (self_local_memory_by_name py i names)
  unfolding self_local_memory_by_name
  memory-IsReadOnly i [] = lift-IsReadOnly _
  memory-IsReadOnly i (name ∷ names) =
      bind-IsReadOnly _
        (λ found. bind-IsReadOnly _ (λ later. lift-IsReadOnly _) _ (memory-IsReadOnly i names)) _
        (get_pokemon_local_state-IsReadOnly _ _ _ py "SELF" name)

identity_same : (i j : TurnIdentity) → make_identity i ≡ ok j → j ≡ i
unfolding make_identity
identity_same i j h = ground arith

meta_same : (a b : ConfirmationMeta) → make_confirmation a ≡ ok b → b ≡ a
unfolding make_confirmation
meta_same a b h = ground arith

switch_same : (a b : LegalSwitchConfirmation) → make_switch_confirmation a ≡ ok b → b ≡ a
unfolding make_switch_confirmation
switch_same a b h = ground arith

binding-Run :
    (py : Python) (s : Repository)
    → Run
        (Now s)
        (current_legal_switch_binding py)
        (λ b t. (t ≡ s) × (make_identity b.identity ≡ ok b.identity))
unfolding current_legal_switch_binding lift
binding-Run py s = looks s _ _ (require_session-IsReadOnly turn_reviewed) λ session _.
    needs s _ _ _ λ turn_id _. needs s _ _ _ λ applied_id _.
      looks s _ _ (get_turn-IsReadOnly turn_id) λ turn _. makes s _ _ λ identity i.
        looks s _ _ (latest-IsReadOnly py _ _ _) λ found _. needs s _ _ _ λ latest _.
          passes (Now s) _ _ _ λ _.
            looks s _ _ (get_applied_selection-IsReadOnly applied_id) λ applied _.
              let same = identity_same _ identity i in
              record { at = λ t p. (p, subst (λ x. make_identity x ≡ ok identity) (sym same) i) }

-- What the domain's confirmation keeps of what it was asked.
confirmed-IsMade :
    (applied : AppliedSelectionSnapshot) (active : String) (memory : LocalMemory)
    (request c : LegalSwitchConfirmation)
    → make_identity request.identity ≡ ok request.identity
    → maple_next.Base.◌>>=◌
        (make_confirmation request.confirmation)
        (λ _. confirm_legal_switches applied active memory request)
      ≡ ok c
    → IsMade c
unfolding confirm_legal_switches
confirmed-IsMade applied active memory request c i h =
    let (m, cm, h) = >>=-eq-ok (make_confirmation request.confirmation) _ h in
    let (_, _, h) =
      >>=-eq-ok
        (raise_if (not (member active applied.selected_three))
          (legal_switch_error "CURRENT_ACTIVE_OUTSIDE_SELECTED_THREE"))
        _ h in
    let (_, _, h) =
      >>=-eq-ok (check_switches applied.selected_three active memory [] request.legal_switches) _
        h in
    let settled : LegalSwitchConfirmation = record request {
      applied_selection_id = applied.applied_selection_id;
      legal_switches = map strip request.legal_switches;
    } in
    let same = switch_same settled c h in
    let kept = meta_same request.confirmation m cm in
    subst IsMade (sym same)
      (record { identity = i; confirmation = cm ∙ ap ok kept; made = h ∙ ap ok same })

read_back : (c : LegalSwitchConfirmation) → IsMade c → switch_confirmation_from_row c ≡ ok c
unfolding switch_confirmation_from_row
read_back c h = rw (h.identity, h.confirmation) h.made

abbrev Holds : Repository → LegalSwitchConfirmation → Repository → Type 0
Holds s c t = IsMade c × (t.switch_confirmations ≡ put_confirmation c s.switch_confirmations)

upsert-Run :
    (s : Repository) (c : LegalSwitchConfirmation)
    → Run
        (Now s)
        (upsert_legal_switch_confirmation c)
        (λ _ t. t.switch_confirmations ≡ put_confirmation c s.switch_confirmations)
unfolding upsert_legal_switch_confirmation ◌>>=◌
upsert-Run s c = record { at = λ t p. ground (arith, p) }

module _ (py : Python) (names : List String) (status : LegalSwitchStatus) (id now : String)
    (s : Repository) where
  finish-Run :
      (b : SwitchBinding) (active : String) (memory : LocalMemory)
      → make_identity b.identity ≡ ok b.identity
      → Run
          (Now s)
          (rescue rejected (
              lift (
                maple_next.Base.◌>>=◌
                  (make_confirmation (asked py b names status id now).confirmation)
                  λ _.
                    confirm_legal_switches b.applied active memory
                      (asked py b names status id now)))
            >>= λ c. upsert_legal_switch_confirmation c >>= λ _. lift (ok c))
          (λ c t. Holds s c t)
  unfolding lift
  finish-Run b active memory i = looks s _ _ (rescue-IsReadOnly _ _ (lift-IsReadOnly _)) λ c e.
      Run-bind _ _ (upsert-Run s c) λ _. record {
        at = λ t p. (
          confirmed-IsMade b.applied active memory (asked py b names status id now) c i
              (lift-eq-ok _ c s s (rescue-eq-ok s _ _ c s e)),
          p,
        );
      }

  confirm-Run :
      (h : Bool)
      → Run (Now s) (confirm_current_switches py names status h id now) (λ c t. Holds s c t)
  unfolding confirm_current_switches
  confirm-Run h = passes (Now s) _ _ _ λ _. Run-transaction _ (
      Run-bind _ _ (binding-Run py s) λ b. Given (Now s) λ i. passes (Now s) _ _ _ λ _.
        needs s _ _ _ λ active _. passes (Now s) _ _ _ λ _.
          looks s _ _ (memory-IsReadOnly py b.identity _) λ memory _. finish-Run b active memory i)

get_lem :
    (i : TurnIdentity) (a b : String) (s : Repository)
    → (get_legal_switch_confirmation i a b s).0
      ≡ read_found switch_confirmation_from_row
          (find_first (is_bound_to i a b) s.switch_confirmations)
unfolding get_legal_switch_confirmation ◌>>=◌ lift
get_lem i a b s = refl

-- A confirmation that returned is what its own binding gives from then on, and every other binding gives
-- what it gave before.
pub confirm_current_switches-get :
    (py : Python) (names : List String) (status : LegalSwitchStatus) (h : Bool) (id now : String)
    (s t : Repository) (c : LegalSwitchConfirmation) (i : TurnIdentity)
    (state_id selection_id : String)
    → confirm_current_switches py names status h id now s ≡ (ok c, t)
    → (get_legal_switch_confirmation i state_id selection_id t).0 ≡ (
        if is_bound_to i state_id selection_id c
        then ok (some c)
        else (get_legal_switch_confirmation i state_id selection_id s).0)
confirm_current_switches-get py names status h id now s t c i state_id selection_id e =
    let (made, rows) = Run-ok (confirm-Run py names status id now s h) refl e in
    let here = find-put_confirmation i state_id selection_id c s.switch_confirmations in
    let back = read_back c made in
    let after =
      get_lem i state_id selection_id t
      ∙ ap
          (λ r.
            read_found switch_confirmation_from_row
              (find_first (is_bound_to i state_id selection_id) r))
          rows
      ∙ ap (read_found switch_confirmation_from_row) here in
    elim (Bool-cases (is_bound_to i state_id selection_id c)) [
      | inl e ↦ after ∙ rw (e, back) refl
      | inr e ↦ after ∙ rw (e, get_lem i state_id selection_id s) refl
    ]
