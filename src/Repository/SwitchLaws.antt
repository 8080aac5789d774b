-- ===== src/Repository/SwitchLaws.antt =====
-- What src/maple_next/persistence/legal_switch_store.py gives back after an upsert.
use maple_next.Base.{
  String, Bool, true, ◌&&◌, ◌≡◌, refl, arith, some, List, [], ◌∷◌, any_of, find_first, map,
  if◌then◌else◌, string_eq, ==-eq, Bool-cases, inl, inr,
}
use maple_next.TurnState.Records.{TurnIdentity, identity_eq}
use maple_next.LegalSwitches.{LegalSwitchConfirmation}
use maple_next.Repository.Switches.{is_bound_to, same_binding, put_confirmation}

abbrev replace : LegalSwitchConfirmation → LegalSwitchConfirmation → LegalSwitchConfirmation
replace new row = if same_binding new row then new else row

bound_alike :
    (i : TurnIdentity) (state_id selection_id : String) (new row : LegalSwitchConfirmation)
    → same_binding new row ≡ true
    → is_bound_to i state_id selection_id row ≡ is_bound_to i state_id selection_id new
unfolding is_bound_to
bound_alike i state_id selection_id new row h =
    let a = ==-eq row.identity new.identity (ground arith) in
    let b = ==-eq row.based_on_confirmed_state_id new.based_on_confirmed_state_id (ground arith) in
    let c = ==-eq row.applied_selection_id new.applied_selection_id (ground arith) in
    rw (a, b, c) refl

both_bound :
    (i : TurnIdentity) (state_id selection_id : String) (new row : LegalSwitchConfirmation)
    → is_bound_to i state_id selection_id new ≡ true
    → is_bound_to i state_id selection_id row ≡ true
    → same_binding new row ≡ true
unfolding is_bound_to
both_bound i state_id selection_id new row h k =
    let a = ==-eq new.identity i (ground arith) in
    let b = ==-eq new.based_on_confirmed_state_id state_id (ground arith) in
    let c = ==-eq new.applied_selection_id selection_id (ground arith) in rw (a, b, c) k

module _ (i : TurnIdentity) (state_id selection_id : String) (new : LegalSwitchConfirmation) where
  abbrev wanted : LegalSwitchConfirmation → Bool
  wanted row = is_bound_to i state_id selection_id row

  find-replaced :
      (rows : List LegalSwitchConfirmation)
      → find_first wanted (map (replace new) rows) ≡ (
          if wanted new && any_of (same_binding new) rows then some new else find_first wanted rows)
  unfolding find_first any_of
  find-replaced [] = ground arith
  find-replaced (row ∷ rows) =
      let ih = find-replaced rows in
      elim (Bool-cases (same_binding new row)) [
        | inl e ↦
            let alike = bound_alike i state_id selection_id new row e in
            rw e (ground (arith, alike, ih))
        | inr e ↦
            let apart : wanted new ≡ true → wanted row ≡ true → same_binding new row ≡ true =
              both_bound i state_id selection_id new row in
            rw e (ground (arith, ih, e, apart))
      ]

  -- A lookup after an upsert: the new confirmation for its own binding, and what was found before for
  -- any other.
  pub find-put_confirmation :
      (rows : List LegalSwitchConfirmation)
      → find_first wanted (put_confirmation new rows)
        ≡ (if wanted new then some new else find_first wanted rows)
  unfolding put_confirmation find_first
  find-put_confirmation rows = elim (Bool-cases (any_of (same_binding new) rows)) [
    | inl e ↦ rw e (ground (arith, find-replaced rows, e))
    | inr e ↦ rw e refl
  ]
