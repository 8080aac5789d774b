-- ===== src/LegalSwitches/Proposed.antt =====
-- The switches that src/maple_next/domain/legal_switches.py proposes, confirmed as they are.
use maple_next.Base.{
  String, Bool, true, false, not, ◌≡◌, refl, subst, ◌||◌, List, [], ◌∷◌, map, keep, any_of, ok,
  arith, ◌==◌, string_eq, member, all_distinct, strip, is_empty, is_blank, ==_refl, ==-eq,
  Bool-cases, inl, inr,
}
use maple_next.Models.{AppliedSelectionSnapshot}
use maple_next.LegalSwitches.{
  LegalSwitchConfirmation, LegalSwitchStatus, confirmed_none, confirmed_nonempty, LocalMemory,
  is_candidate, derive_legal_switch_candidates, check_switches, make_switch_confirmation,
  confirm_legal_switches,
}
use maple_next.LegalSwitches.Laws.{IsLegalSwitch, candidates-legal, keep-member}

-- A name as it is stored: with no space round it, and not empty.
pub record IsName (name : String) : Type 0 where
  pub stripped : strip name ≡ name
  pub named : is_empty name ≡ false

module _ (three : List String) (active : String) (memory : LocalMemory) where
  abbrev Fits : List String → String → Type 0
  Fits seen name = IsName name × IsLegalSwitch three active memory name × (member name seen ≡ false)

  check_head-ok :
      (seen rest : List String) (name : String)
      → Fits seen name
      → check_switches three active memory seen (name ∷ rest)
        ≡ check_switches three active memory (name ∷ seen) rest
  unfolding check_switches
  check_head-ok seen rest name (n, l, u) =
      rw (n.stripped, n.named, u, l.selected, l.inactive, l.alive) refl

  other_name :
      (n name : String) (names seen : List String)
      → not (member n names) ≡ true
      → member name names ≡ true
      → member name seen ≡ false
      → member name (n ∷ seen) ≡ false
  unfolding member
  other_name n name names seen d m u = elim (Bool-cases (name == n)) [
    | inl e ↦ let found = subst (λ x. member x names ≡ true) (==-eq name n e) m in ground arith
    | inr e ↦ rw e u
  ]

  or_true : (a b : Bool) → b ≡ true → (a || b) ≡ true
  or_true a b h = ground arith

  check_switches-ok :
      (seen names : List String)
      → ((name : String) → member name names ≡ true → Fits seen name)
      → all_distinct names ≡ true
      → check_switches three active memory seen names ≡ ok tt
  unfolding check_switches member all_distinct
  check_switches-ok seen [] k d = refl
  check_switches-ok seen (name ∷ names) k d =
      let head = check_head-ok seen names name (k name (rw (==_refl name) refl)) in
      rw head (
        check_switches-ok (name ∷ seen) names
          (λ x m.
            let (n, l, u) = k x (or_true _ _ m) in
            (n, l, other_name name x names seen (ground arith) m u))
          (ground arith))

map-strip :
    (names : List String)
    → ((x : String) → member x names ≡ true → IsName x)
    → map strip names ≡ names
unfolding member
map-strip [] k = refl
map-strip (n ∷ ns) k =
    let head = (k n (rw (==_refl n) refl)).stripped in
    let rest = map-strip ns (λ x m. k x (ground arith)) in rw (head, rest) refl

none_blank :
    (names : List String)
    → ((x : String) → member x names ≡ true → IsName x)
    → any_of is_blank names ≡ false
unfolding member any_of is_blank
none_blank [] k = refl
none_blank (n ∷ ns) k =
    let first = k n (rw (==_refl n) refl) in
    let rest = none_blank ns (λ x m. k x (ground arith)) in rw (first.stripped, first.named) rest

keep-all_distinct :
    (p : String → Bool) (names : List String)
    → all_distinct names ≡ true
    → all_distinct (keep p names) ≡ true
unfolding all_distinct keep member
keep-all_distinct p [] d = refl
keep-all_distinct p (n ∷ ns) d =
    let rest = keep-all_distinct p ns (ground arith) in
    let both = keep-member p ns n in
    elim (Bool-cases (p n)) [ inl e ↦ rw e (ground arith) | inr e ↦ rw e rest ]

abbrev status_for : List String → LegalSwitchStatus
status_for [] = confirmed_none
status_for (n ∷ ns) = confirmed_nonempty

-- The confirmation of what is proposed.
abbrev pub as_proposed : LegalSwitchConfirmation → List String → LegalSwitchConfirmation
as_proposed asked names = record asked { legal_switches = names; status = status_for names }

make_switch_confirmation-ok :
    (asked : LegalSwitchConfirmation) (names : List String)
    → is_blank asked.confirmation_id ≡ false
    → is_blank asked.based_on_confirmed_state_id ≡ false
    → is_blank asked.applied_selection_id ≡ false
    → asked.confirmation.confirmed_by_human ≡ true
    → any_of is_blank names ≡ false
    → all_distinct names ≡ true
    → make_switch_confirmation (as_proposed asked names) ≡ ok (as_proposed asked names)
unfolding make_switch_confirmation
make_switch_confirmation-ok asked [] i b a h n d = rw (i, b, a, h, n, d) refl
make_switch_confirmation-ok asked (x ∷ xs) i b a h n d = rw (i, b, a, h, n, d) refl

-- If the selected three are distinct names with no space round them, the human confirms, and the ids
-- are not blank, then the proposed switches are accepted as they are, with the status that says whether
-- there are any.
pub proposed-accepted :
    (applied : AppliedSelectionSnapshot) (active : String) (memory : LocalMemory)
    (asked : LegalSwitchConfirmation) (names : List String)
    → ((name : String) → member name applied.selected_three ≡ true → IsName name)
    → all_distinct applied.selected_three ≡ true
    → is_blank asked.confirmation_id ≡ false
    → is_blank asked.based_on_confirmed_state_id ≡ false
    → is_blank applied.applied_selection_id ≡ false
    → asked.confirmation.confirmed_by_human ≡ true
    → derive_legal_switch_candidates applied.selected_three active memory ≡ ok names
    → confirm_legal_switches applied active memory (as_proposed asked names)
      ≡ ok
          (record (as_proposed asked names) { applied_selection_id = applied.applied_selection_id })
unfolding confirm_legal_switches derive_legal_switch_candidates member
proposed-accepted applied active memory asked names n d i b a h p =
    let three = applied.selected_three in
    let here : member active three ≡ true = ground arith in
    let kept : keep (is_candidate three active memory) three ≡ names = ground arith in
    let legal : (x : String) → member x names ≡ true → IsLegalSwitch three active memory x =
      λ x m. (candidates-legal three active memory names p x).0 m in
    let named : (x : String) → member x names ≡ true → IsName x = λ x m. n x (legal x m).selected in
    let distinct : all_distinct names ≡ true =
      subst (λ ns. all_distinct ns ≡ true) kept
        (keep-all_distinct (is_candidate three active memory) three d) in
    let checked =
      check_switches-ok three active memory [] names (λ x m. (named x m, legal x m, refl))
        distinct in
    rw (here, checked, map-strip names named)
      (make_switch_confirmation-ok
        (record asked { applied_selection_id = applied.applied_selection_id }) names i b a h
        (none_blank names named) distinct)
