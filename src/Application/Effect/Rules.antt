-- ===== src/Application/Effect/Rules.antt =====
-- Rules by which a command's effect is read off its steps, for a fixed table of sessions.
use maple_next.Base.{
  Bool, true, false, ◌&&◌, [], Bool-cases, inl, inr, any_of, find_first, ==_refl, ◌≡◌, refl, Option,
  none, some, List, ◌∷◌, Error, Result, ok, arith, string_eq, nat_eq,
}
use maple_next.Enums.{BattleState, selection_open, state_eq}
use maple_next.Models.{BattleSession}
use maple_next.Repository.{Repository, Exec, ◌>>=◌, lift, guard, gets, required}
use maple_next.Repository.Sessions.{
  find_active, is_active, is_stored, load_active_session, slot_taken, update_rows, save_session,
  insert_session,
}
use maple_next.Repository.Run.{Run, Run-bind, Reads-lift, Reads-guard, Reads-required, Given}
use maple_next.Repository.Quiet.{Quiet, Run-Quiet}
use maple_next.Application.Session.{require_active_session, require_session}
use maple_next.Application.Effect.{IsCoherent, IsFresh, Purpose, Transition, Effect, saved}

-- The active session is a row.
active-is_stored :
    (rows : List BattleSession) (old new : BattleSession)
    → find_active rows ≡ some old
    → new.session_id ≡ old.session_id
    → is_stored new rows ≡ true
unfolding find_active find_first is_stored any_of
active-is_stored [] old new h same = cc
active-is_stored (row ∷ rows) old new h same = elim (Bool-cases (is_active row)) [
  | inl e ↦
      let here : some row ≡ some old = rw e at h in
      let id : row.session_id ≡ new.session_id = ground (arith, here, same) in
      rw (id, ==_refl new.session_id) refl
  | inr e ↦
      let later : find_active rows ≡ some old = rw e at h in
      rw (active-is_stored rows old new later same) (ground arith)
]

module _ (rows : List BattleSession) where
  abbrev pub Same : Repository → Type 0
  Same s = s.sessions ≡ rows

  -- The command does what an effect allows.
  abbrev pub HasEffect : {A : Type 0} → Purpose → Bool → Exec A → Type 0
  HasEffect p must m = Run Same m (λ _ s. Effect p must rows s.sessions)

  module _ {A B : Type 0} {R : B → Repository → Type 0} (f : A → Exec B) where
    pub reads :
        (m : Exec A) (F : A → Type 0)
        → Run Same m (λ a s. Same s × F a)
        → ((a : A) → F a → Run Same (f a) R)
        → Run Same (m >>= f) R
    reads m F km k = Run-bind m f km (λ a. Given Same (k a))

    pub quiet : (m : Exec A) → Quiet m → ((a : A) → Run Same (f a) R) → Run Same (m >>= f) R
    quiet m km k = Run-bind m f (Run-Quiet (λ t. t ≡ rows) m km) k

    pub lifts : (r : Result A) → ((a : A) → r ≡ ok a → Run Same (f a) R) → Run Same (lift r >>= f) R
    lifts r k = reads (lift r) (λ a. r ≡ ok a) (Reads-lift Same r) k

    pub requires :
        (e : Error) (o : Option A)
        → ((a : A) → o ≡ some a → Run Same (f a) R)
        → Run Same (required e o >>= f) R
    requires e o k = reads (required e o) (λ a. o ≡ some a) (Reads-required Same e o) k

  pub guards :
      {B : Type 0} {R : B → Repository → Type 0} (f : Unit → Exec B) (b : Bool) (e : Error)
      → (b ≡ false → Run Same (f tt) R)
      → Run Same (guard b e >>= f) R
  guards f b e k = reads f (guard b e) (λ _. b ≡ false) (Reads-guard Same b e) (λ _ g. k g)

  pub load_active-Run : Run Same load_active_session (λ a s. Same s × (find_active rows ≡ a))
  unfolding load_active_session gets
  load_active-Run = record { at = λ s p. (p, rw (← p) refl) }

  required-Run :
      (e : Error) (o : Option BattleSession)
      → find_active rows ≡ o
      → Run Same (required e o) (λ a s. Same s × (find_active rows ≡ some a))
  unfolding required lift
  required-Run e none h = record { at = λ s p. tt }
  required-Run e (some a) h = record { at = λ s p. (p, h) }

  active-Run : Run Same require_active_session (λ a s. Same s × (find_active rows ≡ some a))
  unfolding require_active_session
  active-Run = reads _ _ (λ a. find_active rows ≡ a) load_active-Run (required-Run _)

  state-Run :
      (st : BattleState)
      → Run Same
          (require_session st)
          (λ a s. Same s × ((find_active rows ≡ some a) × (a.state ≡ st)))
  unfolding require_session lift
  state-Run st =
      reads _ _ (λ a. find_active rows ≡ some a) active-Run
        λ a h.
          guards _ _ _
            λ g. record { at = λ s p. (p, (h, ground (arith, state_eq.beq_iff a.state st))) }

  pub save_session-Run :
      (new : BattleSession)
      → Run Same (save_session new) (λ _ s.
        ((slot_taken new rows && is_stored new rows) ≡ false) × (s.sessions ≡ update_rows new rows))
  unfolding save_session ◌>>=◌
  save_session-Run new = record { at = λ s p. ground arith }

  pub insert_session-Run :
      (new : BattleSession)
      → new.state ≡ selection_open
      → IsCoherent new
      → Run Same (insert_session new) (λ _ s. IsFresh new rows × (s.sessions ≡ new ∷ rows))
  unfolding insert_session ◌>>=◌
  insert_session-Run new st c = record { at = λ s p. ground arith }

  module _ {B : Type 0} {p : Purpose} {must : Bool} (f : BattleSession → Exec B) where
    -- A command on the active session.
    pub on_active :
        ((old : BattleSession) → find_active rows ≡ some old → HasEffect p must (f old))
        → HasEffect p must (require_active_session >>= f)
    on_active k = reads f require_active_session (λ a. find_active rows ≡ some a) active-Run k

    -- A command on the active session in a state.
    pub in_state :
        (st : BattleState)
        → ((old : BattleSession)
            → find_active rows ≡ some old
            → old.state ≡ st
            → HasEffect p must (f old))
        → HasEffect p must (require_session st >>= f)
    in_state st k =
        reads f (require_session st) (λ a. (find_active rows ≡ some a) × (a.state ≡ st))
          (state-Run st) (λ a h. k a h.0 h.1)

  free_slot :
      (old new : BattleSession)
      → find_active rows ≡ some old
      → new.session_id ≡ old.session_id
      → (slot_taken new rows && is_stored new rows) ≡ false
      → slot_taken new rows ≡ false
  free_slot old new act same h =
      let there = active-is_stored rows old new act same in ground (arith, h, there)

  -- The command saves the session, and leaves the sessions alone from there.
  pub saves :
      {B : Type 0} {p : Purpose} {must : Bool} (f : Unit → Exec B) (old new : BattleSession)
      → find_active rows ≡ some old
      → Transition p old new
      → Quiet (f tt)
      → HasEffect p must (save_session new >>= f)
  saves {B} {p} {must} f old new act t q = Run-bind (save_session new) f (save_session-Run new) λ _.
      record {
        at = λ s h.
            (Run-Quiet (λ ss. Effect p must rows ss) (f tt) q).at s
              (saved old new act t (free_slot old new act t.session h.0) h.1);
      }
