-- ===== src/Application/Coherence.antt =====
-- What every effect keeps of the table of sessions.
use maple_next.Base.{
  Bool, true, false, ◌≡◌, some, List, [], ◌∷◌, arith, string_eq, nat_eq, option_eq, sym, Bool-cases,
  inl, inr, if◌then◌else◌, subst, find_first,
}
use maple_next.Enums.{
  BattleState, selection_open, selection_advice_ready, battle_ready, turn_capture_pending,
  turn_review_required, turn_reviewed, turn_recorded, match_ended, match_exported, aborted,
}
use maple_next.Models.{BattleSession}
use maple_next.Repository.Sessions.{find_active, is_active, update_rows, with_columns}
use maple_next.Application.Match.{released}
use maple_next.Application.Effect.{
  CoherentAt, IsCoherent, Purpose, Effect, kept, saved, opened, reopened,
}

pub data AllCoherent : List BattleSession → Type 0 where
  none_yet : AllCoherent []
  one_more :
      (row : BattleSession) (rows : List BattleSession)
      → IsCoherent row
      → AllCoherent rows
      → AllCoherent (row ∷ rows)

-- The columns that a state constrains are all written by `save_session`.
columns_at :
    (st : BattleState) (row new : BattleSession)
    → CoherentAt st new
    → CoherentAt st (with_columns row new)
unfolding with_columns
columns_at selection_open row new c = c
columns_at selection_advice_ready row new c = c
columns_at battle_ready row new c = c
columns_at turn_capture_pending row new c = c
columns_at turn_review_required row new c = c
columns_at turn_reviewed row new c = c
columns_at turn_recorded row new c = c
columns_at match_ended row new c = c
columns_at match_exported row new c = c
columns_at aborted row new c = c

with_columns-IsCoherent :
    (row new : BattleSession) → IsCoherent new → IsCoherent (with_columns row new)
unfolding with_columns
with_columns-IsCoherent row new c = columns_at new.state row new c

if-IsCoherent :
    (b : Bool) (a r : BattleSession) → IsCoherent a → IsCoherent r → IsCoherent (if b then a else r)
if-IsCoherent true a r ca cr = ca
if-IsCoherent false a r ca cr = cr

update_rows-AllCoherent :
    (new : BattleSession) (rows : List BattleSession)
    → IsCoherent new
    → AllCoherent rows
    → AllCoherent (update_rows new rows)
unfolding update_rows
update_rows-AllCoherent new [] c none_yet = none_yet
update_rows-AllCoherent new (row ∷ rows) c (one_more _ _ h hs) =
    one_more _ _ (if-IsCoherent _ _ _ (with_columns-IsCoherent row new c) h)
      (update_rows-AllCoherent new rows c hs)

find_active-IsCoherent :
    (rows : List BattleSession) (old : BattleSession)
    → AllCoherent rows
    → find_active rows ≡ some old
    → IsCoherent old
unfolding find_active find_first
find_active-IsCoherent [] old none_yet h = ground arith
find_active-IsCoherent (row ∷ rows) old (one_more _ _ c cs) h = elim (Bool-cases (is_active row)) [
  | inl e ↦ subst IsCoherent (ground arith) c
  | inr e ↦ find_active-IsCoherent rows old cs (ground arith)
]

released-IsCoherent :
    (old : BattleSession) → old.state ≡ match_exported → IsCoherent old → IsCoherent (released old)
unfolding released
released-IsCoherent old h c =
    let at = subst (λ x. CoherentAt x old) h c in
    subst (λ x. CoherentAt x (released old)) (sym h) at

-- Every effect of a command keeps all rows coherent.
pub effect-AllCoherent :
    {p : Purpose} {must : Bool} {rows rows' : List BattleSession}
    → Effect p must rows rows'
    → AllCoherent rows
    → AllCoherent rows'
effect-AllCoherent {p} {must} {rows} (kept o h) c = subst AllCoherent (sym h) c
effect-AllCoherent {p} {must} {rows} (saved old new act t free h) c =
    subst AllCoherent (sym h)
      (update_rows-AllCoherent new rows (t.coherent (find_active-IsCoherent rows old c act)) c)
effect-AllCoherent {p} {must} {rows} (opened new o act f h) c =
    subst AllCoherent (sym h) (one_more new rows f.coherent c)
effect-AllCoherent {p} {must} {rows} (reopened old new o act st f h) c =
    let old_c = released-IsCoherent old st (find_active-IsCoherent rows old c act) in
    subst AllCoherent (sym h)
      (one_more new _ f.coherent (update_rows-AllCoherent (released old) rows old_c c))
