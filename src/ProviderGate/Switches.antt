-- ===== src/ProviderGate/Switches.antt =====
-- Legal switches that src/maple_next/domain/legal_switches.py confirms, at the gate of
-- src/maple_next/domain/turn_state_projection.py.
use maple_next.Base.{
  String, Bool, true, false, not, ◌≡◌, refl, sym, some, List, [], ◌∷◌, any_of, ok, arith, string_eq,
  member, ==_refl,
}
use maple_next.Models.{AppliedSelectionSnapshot}
use maple_next.LegalSwitches.{
  LegalSwitchConfirmation, LocalMemory, is_confirmed_fainted, confirm_legal_switches,
}
use maple_next.LegalSwitches.Laws.{confirm_legal_switches-legal}
use maple_next.ProviderGate.{GateInput, member_reasons}

none_of :
    (p : String → Bool) (names : List String)
    → ((name : String) → member name names ≡ true → p name ≡ false)
    → any_of p names ≡ false
unfolding any_of member
none_of p [] k = refl
none_of p (n ∷ ns) k =
    let first = k n (rw (==_refl n) refl) in
    let rest = none_of p ns (λ x m. k x (ground arith)) in rw first rest

never : (b : Bool) → (b ≡ true → false ≡ true) → b ≡ false
never true k = sym (k refl)
never false k = refl

-- The switches that were confirmed for a selection and an active Pokemon give the gate no reason to
-- refuse their contents, if whoever it takes for fainted is known to have fainted.
pub confirmed-member_reasons :
    (applied : AppliedSelectionSnapshot) (active : String) (memory : LocalMemory)
    (asked made : LegalSwitchConfirmation) (input : GateInput)
    → confirm_legal_switches applied active memory asked ≡ ok made
    → ((name : String)
        → member name input.confirmed_fainted_members ≡ true
        → is_confirmed_fainted (memory name) ≡ true)
    → member_reasons input (some active) applied.selected_three (some made) ≡ []
confirmed-member_reasons applied active memory asked made input h fainted =
    let (human, distinct, status, legal) =
      confirm_legal_switches-legal applied active memory asked made h in
    let inside : any_of (λ name. not (member name applied.selected_three)) made.legal_switches
        ≡ false =
      none_of _ made.legal_switches (λ x m. rw ((legal x m).selected) refl) in
    let inactive : member active made.legal_switches ≡ false =
      never _
        (λ m. let off = (legal active m).inactive in let on = ==_refl active in ground arith) in
    let alive : any_of (λ name. member name input.confirmed_fainted_members) made.legal_switches
        ≡ false =
      none_of _ made.legal_switches (λ x m.
        never _ (λ f. let up = (legal x m).alive in let down = fainted x f in ground arith)) in
    rw (inside, inactive, alive) refl
