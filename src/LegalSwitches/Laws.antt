-- ===== src/LegalSwitches/Laws.antt =====
-- Proofs about src/maple_next/domain/legal_switches.py.
use maple_next.Base.{
  String, Bool, true, false, ◌≡◌, ◌↔◌, refl, inl, inr, ◌&&◌, List, [], ◌∷◌, map, keep, ok, arith,
  ◌==◌, string_eq, member, all_distinct, strip, ==_refl, ==-eq, Bool-cases,
}
use maple_next.Models.{AppliedSelectionSnapshot}
use maple_next.LegalSwitches.{
  LegalSwitchConfirmation, LegalSwitchStatus, confirmed_none, confirmed_nonempty,
  not_captured_or_unresolved, is_unresolved, LocalMemory, check_status, is_confirmed_fainted,
  is_candidate, derive_legal_switch_candidates, check_switches, make_switch_confirmation,
  confirm_legal_switches,
}

true_not_seen : (name : String) (seen : List String) → member name (name ∷ seen) ≡ false → ⊥
unfolding member
true_not_seen name seen h = let same = ==_refl name in ground arith

and_false : (b : Bool) → (b && false) ≡ false
and_false b = ground arith

pub keep-member :
    (p : String → Bool) (names : List String) (name : String)
    → member name (keep p names) ≡ (member name names && p name)
unfolding keep member
keep-member p [] name = refl
keep-member p (n ∷ ns) name =
    let rest = keep-member p ns name in
    let same = ==-eq name n in
    elim (Bool-cases (name == n)) [
      | inl e ↦
          let named = same e in
          rw named (elim (Bool-cases (p n)) [
            | inl k ↦ rw (k, ==_refl n) refl
            | inr k ↦ rw (k, keep-member p ns n, k, and_false, and_false) refl
          ])
      | inr e ↦ elim (Bool-cases (p n)) [ inl k ↦ rw (k, e) rest | inr k ↦ rw (k, e) rest ]
    ]

module _ (three : List String) (active : String) (memory : LocalMemory) where
  -- A member of the selected three that is not active and not known to have fainted.
  pub record IsLegalSwitch (name : String) : Type 0 where
    pub selected : member name three ≡ true
    pub inactive : (name == active) ≡ false
    pub alive : is_confirmed_fainted (memory name) ≡ false

  abbrev Passed : List String → List String → Type 0
  Passed seen names =
      (name : String) → member name names ≡ true → IsLegalSwitch name × (member name seen ≡ false)

  check_head :
      (seen rest : List String) (raw : String)
      → check_switches three active memory seen (raw ∷ rest) ≡ ok tt
      → IsLegalSwitch (strip raw)
        × (member (strip raw) seen ≡ false)
        × (check_switches three active memory (strip raw ∷ seen) rest ≡ ok tt)
  unfolding check_switches
  check_head seen rest raw h = ground arith

  check_switches-Passed :
      (seen names : List String)
      → check_switches three active memory seen names ≡ ok tt
      → Passed seen (map strip names)
  unfolding member
  check_switches-Passed seen [] h name m = cc
  check_switches-Passed seen (raw ∷ rest) h name m =
      let (legal, new, more) = check_head seen rest raw h in
      elim (Bool-cases (name == strip raw)) [
        | inl e ↦ rw (==-eq name (strip raw) e) (legal, new)
        | inr e ↦
            let later : member name (map strip rest) ≡ true = rw e at m in
            let (found, unseen) = check_switches-Passed (strip raw ∷ seen) rest more name later in
            let unseen' : member name seen ≡ false = rw e at unseen in (found, unseen')
      ]

  check_switches-distinct :
      (seen names : List String)
      → check_switches three active memory seen names ≡ ok tt
      → all_distinct (map strip names) ≡ true
  unfolding all_distinct
  check_switches-distinct seen [] h = refl
  check_switches-distinct seen (raw ∷ rest) h =
      let (legal, new, more) = check_head seen rest raw h in
      let distinct = check_switches-distinct (strip raw ∷ seen) rest more in
      elim (Bool-cases (member (strip raw) (map strip rest))) [
        | inl e ↦
            let (found, unseen) =
              check_switches-Passed (strip raw ∷ seen) rest more (strip raw) e in
            absurd (true_not_seen (strip raw) seen unseen)
        | inr e ↦ rw (e, distinct) refl
      ]

  is_legal :
      (name : String)
      → ((member name three && is_candidate three active memory name) ≡ true) ↔ IsLegalSwitch name
  unfolding is_candidate
  is_legal name = (
    λ h. record { selected = ground arith; inactive = ground arith; alive = ground arith },
    λ l. ground arith,
  )

  -- The names proposed are exactly the legal switches of the selected three.
  pub candidates-legal :
      (names : List String)
      → derive_legal_switch_candidates three active memory ≡ ok names
      → (name : String) → (member name names ≡ true) ↔ IsLegalSwitch name
  unfolding derive_legal_switch_candidates
  candidates-legal names h name =
      let kept : keep (is_candidate three active memory) three ≡ names = ground arith in
      let both = keep-member (is_candidate three active memory) three name in
      rw (← kept, both) (is_legal name)

status_says :
    (status : LegalSwitchStatus) (names : List String)
    → is_unresolved status ≡ false
    → check_status status names ≡ ok tt
    → (status ≡ confirmed_none) ↔ (names ≡ [])
status_says confirmed_none [] u h = (λ _. refl, λ _. refl)
status_says confirmed_none (n ∷ ns) u h = cc
status_says confirmed_nonempty [] u h = cc
status_says confirmed_nonempty (n ∷ ns) u h = (λ e. cc, λ e. cc)
status_says not_captured_or_unresolved names u h = cc

-- A confirmation that is accepted was made by a human, its names are distinct members of the selected
-- three that are not active and not known to have fainted, and its status says whether there are any.
pub confirm_legal_switches-legal :
    (applied : AppliedSelectionSnapshot) (active : String) (memory : LocalMemory)
    (asked made : LegalSwitchConfirmation)
    → confirm_legal_switches applied active memory asked ≡ ok made
    → (made.confirmation.confirmed_by_human ≡ true)
      × (all_distinct made.legal_switches ≡ true)
      × ((made.status ≡ confirmed_none) ↔ (made.legal_switches ≡ []))
      × ((name : String)
          → member name made.legal_switches ≡ true
          → IsLegalSwitch applied.selected_three active memory name)
unfolding confirm_legal_switches make_switch_confirmation
confirm_legal_switches-legal applied active memory asked made h =
    let checked : check_switches applied.selected_three active memory [] asked.legal_switches
        ≡ ok tt =
      ground arith in
    let names : made.legal_switches ≡ map strip asked.legal_switches = ground arith in
    let passed =
      check_switches-Passed applied.selected_three active memory [] asked.legal_switches checked in
    (
      ground arith,
      rw names (check_switches-distinct applied.selected_three active memory [] _ checked),
      status_says made.status made.legal_switches (ground arith) (ground arith),
      λ name m. (passed name (rw names at m)).0,
    )
