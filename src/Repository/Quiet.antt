-- ===== src/Repository/Quiet.antt =====
-- Actions that leave the sessions as they are, with the rules for building them.
use mathlib.Core.Path.{subst}
use maple_next.Base.{
  Bool, true, false, ◌≡◌, refl, sym, ◌∙◌, Option, List, ok, err, Result, Error, if◌then◌else◌,
}
use maple_next.Models.{BattleSession}
use maple_next.Repository.{
  Repository, Exec, ◌>>=◌, lift, required, gets, modify, rescue, transaction,
}
use maple_next.Repository.Run.{Run, Post}

-- Whether it returns or raises, the action leaves the sessions as they were.
pub record Quiet {A : Type 0} (m : Exec A) : Type 0 where
  pub keeps : (s : Repository) → (m s).1.sessions ≡ s.sessions

module _ {A : Type 0} where
  pub Quiet-lift : (r : Result A) → Quiet (lift r)
  unfolding lift
  Quiet-lift r = record { keeps = λ s. refl }

  pub Quiet-gets : (f : Repository → A) → Quiet (gets f)
  unfolding gets
  Quiet-gets f = record { keeps = λ s. refl }

  pub Quiet-required : (e : Error) (o : Option A) → Quiet (required e o)
  unfolding required lift
  Quiet-required e o = record { keeps = λ s. refl }

  pub Quiet-if : (b : Bool) (m n : Exec A) → Quiet m → Quiet n → Quiet (if b then m else n)
  Quiet-if true m n km kn = km
  Quiet-if false m n km kn = kn

  run_of :
      (P : List BattleSession → Type 0) (r : Result A) (s : Repository)
      → P s.sessions
      → Post (λ _ t. P t.sessions) (r, s)
  run_of P (ok a) s p = p
  run_of P (err e) s p = tt

  pub Run-Quiet :
      (P : List BattleSession → Type 0) (m : Exec A)
      → Quiet m
      → Run (λ s. P s.sessions) m (λ _ s. P s.sessions)
  Run-Quiet P m k = record {
    at = λ s p. let (r, s') = m s in run_of P r s' (subst P (sym (k.keeps s)) p);
  }

module _ {A B : Type 0} where
  continue-keeps :
      (f : A → Exec B) (r : Result A) (s : Repository)
      → ((a : A) → Quiet (f a))
      → ((lift r >>= f) s).1.sessions ≡ s.sessions
  unfolding ◌>>=◌ lift
  continue-keeps f (ok a) s k = (k a).keeps s
  continue-keeps f (err e) s k = refl

  pub Quiet-bind :
      (m : Exec A) (f : A → Exec B) → Quiet m → ((a : A) → Quiet (f a)) → Quiet (m >>= f)
  unfolding ◌>>=◌ lift
  Quiet-bind m f km k = record {
    keeps = λ s. let (r, s') = m s in continue-keeps f r s' k ∙ km.keeps s;
  }

module _ {A : Type 0} {ss : List BattleSession} where
  rescued :
      (f : Error → Error) (r : Result A) (s : Repository)
      → s.sessions ≡ ss
      → (rescue f (λ _. (r, s)) s).1.sessions ≡ ss
  unfolding rescue
  rescued f (ok a) s h = h
  rescued f (err e) s h = h

pub Quiet-rescue : {A : Type 0} (f : Error → Error) (m : Exec A) → Quiet m → Quiet (rescue f m)
unfolding rescue
Quiet-rescue f m k = record { keeps = λ s. let (r, s') = m s in rescued f r s' (k.keeps s) }

module _ {A : Type 0} {ss : List BattleSession} where
  rolled :
      (s : Repository) (r : Result A) (s' : Repository)
      → s.sessions ≡ ss
      → s'.sessions ≡ ss
      → (transaction (λ _. (r, s')) s).1.sessions ≡ ss
  unfolding transaction
  rolled s (ok a) s' h h' = h'
  rolled s (err e) s' h h' = h

pub Quiet-transaction : {A : Type 0} (m : Exec A) → Quiet m → Quiet (transaction m)
unfolding transaction
Quiet-transaction m k = record { keeps = λ s. let (r, s') = m s in rolled s r s' refl (k.keeps s) }

pub Quiet-modify :
    (f : Repository → Repository)
    → ((s : Repository) → (f s).sessions ≡ s.sessions)
    → Quiet (modify f)
unfolding modify
Quiet-modify f k = record { keeps = k }
