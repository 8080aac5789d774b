-- ===== src/Repository/Run.antt =====
-- A logic of actions that return: from a repository with `P`, an action that returns `a` ends in a
-- repository with `Q a`. Of an action that raises nothing is said; `transaction` undoes its writes.
use maple_next.Base.{Bool, true, false, ◌≡◌, refl, Option, none, some, Error, Result, ok, err}
use maple_next.Repository.{Repository, Exec, ◌>>=◌, lift, required, guard, transaction, rescue}

abbrev pub Post : {A : Type 0} → (A → Repository → Type 0) → Result A × Repository → Type 0
Post Q (ok a, s) = Q a s
Post Q (err e, s) = Unit

pub record Run {A : Type 0} (P : Repository → Type 0) (m : Exec A) (Q : A → Repository → Type 0)
    : Type 0 where
  pub at : (s : Repository) → P s → Post Q (m s)

module _ {A B : Type 0} (Q : A → Repository → Type 0) (R : B → Repository → Type 0)
    (f : A → Exec B) where
  continue-Run :
      ((a : A) → Run (Q a) (f a) R)
      → (r : Result A) (s : Repository) → Post Q (r, s)
      → Post R ((lift r >>= f) s)
  unfolding ◌>>=◌ lift
  continue-Run k (ok a) s q = (k a).at s q
  continue-Run k (err e) s q = tt

module _ {A : Type 0} (Q : A → Repository → Type 0) where
  roll-Run :
      (s : Repository) (r : Result A) (s' : Repository)
      → Post Q (r, s')
      → Post Q (transaction (λ _. (r, s')) s)
  unfolding transaction
  roll-Run s (ok a) s' q = q
  roll-Run s (err e) s' q = tt

  rethrow-Run :
      (f : Error → Error) (s : Repository) (r : Result A) (s' : Repository)
      → Post Q (r, s')
      → Post Q (rescue f (λ _. (r, s')) s)
  unfolding rescue
  rethrow-Run f s (ok a) s' q = q
  rethrow-Run f s (err e) s' q = tt

  weakened :
      {Q' : A → Repository → Type 0} (r : Result A) (t : Repository)
      → ((a : A) (t : Repository) → Q a t → Q' a t)
      → Post Q (r, t)
      → Post Q' (r, t)
  weakened (ok a) t w q = w a t q
  weakened (err e) t w q = tt

module _ {A B : Type 0} {P : Repository → Type 0} {Q : A → Repository → Type 0}
    {R : B → Repository → Type 0} where
  pub Run-bind :
      (m : Exec A) (f : A → Exec B) → Run P m Q → ((a : A) → Run (Q a) (f a) R) → Run P (m >>= f) R
  unfolding ◌>>=◌ lift
  Run-bind m f km k = record {
    at = λ s p. let (r, s') = m s in continue-Run Q R f k r s' (km.at s p);
  }

module _ {A : Type 0} {P : Repository → Type 0} {Q : A → Repository → Type 0} where
  pub Run-transaction : (m : Exec A) → Run P m Q → Run P (transaction m) Q
  unfolding transaction
  Run-transaction m km = record { at = λ s p. let (r, s') = m s in roll-Run Q s r s' (km.at s p) }

  pub Run-rescue : (f : Error → Error) (m : Exec A) → Run P m Q → Run P (rescue f m) Q
  unfolding rescue
  Run-rescue f m km = record { at = λ s p. let (r, s') = m s in rethrow-Run Q f s r s' (km.at s p) }

  pub Run-weaken :
      {P' : Repository → Type 0} {m : Exec A}
      → ((s : Repository) → P' s → P s)
      → Run P m Q
      → Run P' m Q
  Run-weaken {P'} {m} w k = record { at = λ s p. k.at s (w s p) }

  pub Run-post :
      {Q' : A → Repository → Type 0} (m : Exec A)
      → Run P m Q
      → ((a : A) (t : Repository) → Q a t → Q' a t)
      → Run P m Q'
  Run-post m k w = record { at = λ s p. let (r, t) = m s in weakened Q r t w (k.at s p) }

  -- What a run that returned ends in.
  pub Run-ok :
      {m : Exec A} {s s' : Repository} {a : A} → Run P m Q → P s → m s ≡ (ok a, s') → Q a s'
  Run-ok {m} {s} {s'} {a} k p e = rw e at (k.at s p)

-- Steps that read: the state keeps `P`, and the value has `F`.
module _ {A : Type 0} (P : Repository → Type 0) where
  abbrev pub Reads : Exec A → (A → Type 0) → Type 0
  Reads m F = Run P m (λ a s. P s × F a)

  pub Reads-lift : (r : Result A) → Reads (lift r) (λ a. r ≡ ok a)
  unfolding lift
  Reads-lift (ok a) = record { at = λ s p. (p, refl) }
  Reads-lift (err e) = record { at = λ s p. tt }

  pub Reads-required : (e : Error) (o : Option A) → Reads (required e o) (λ a. o ≡ some a)
  unfolding required lift
  Reads-required e none = record { at = λ s p. tt }
  Reads-required e (some a) = record { at = λ s p. (p, refl) }

  -- Go on with what a step has shown.
  pub Given :
      {F : Type 0} {m : Exec A} {Q : A → Repository → Type 0}
      → (F → Run P m Q)
      → Run (λ s. P s × F) m Q
  Given k = record { at = λ s h. (k h.1).at s h.0 }

pub Reads-guard :
    (P : Repository → Type 0) (b : Bool) (e : Error) → Reads P (guard b e) (λ _. b ≡ false)
unfolding lift
Reads-guard P true e = record { at = λ s p. tt }
Reads-guard P false e = record { at = λ s p. (p, refl) }
