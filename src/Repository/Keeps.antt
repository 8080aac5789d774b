-- ===== src/Repository/Keeps.antt =====
-- Properties of the repository that an action keeps, whether it returns or raises, with a rule for each
-- way to build an action.
use maple_next.Base.{Bool, true, false, Option, Error, Result, ok, err, if◌then◌else◌}
use maple_next.Repository.{Repository, Exec, ◌>>=◌, lift, required, gets, transaction, rescue}

pub record Keeps (I : Repository → Type 0) {A : Type 0} (m : Exec A) : Type 0 where
  pub kept : (s : Repository) → I s → I (m s).1

module _ (I : Repository → Type 0) {A : Type 0} where
  rolled :
      (s : Repository) (r : Result A) (s' : Repository)
      → I s
      → I s'
      → I (transaction (λ _. (r, s')) s).1
  unfolding transaction
  rolled s (ok a) s' i i' = i'
  rolled s (err e) s' i i' = i

  rescued :
      (f : Error → Error) (r : Result A) (s : Repository) → I s → I (rescue f (λ _. (r, s)) s).1
  unfolding rescue
  rescued f (ok a) s i = i
  rescued f (err e) s i = i

module _ {I : Repository → Type 0} {A : Type 0} where
  pub Keeps-lift : (r : Result A) → Keeps I (lift r)
  unfolding lift
  Keeps-lift r = record { kept = λ s i. i }

  pub Keeps-required : (e : Error) (o : Option A) → Keeps I (required e o)
  unfolding required lift
  Keeps-required e o = record { kept = λ s i. i }

  pub Keeps-gets : (f : Repository → A) → Keeps I (gets f)
  unfolding gets
  Keeps-gets f = record { kept = λ s i. i }

  pub Keeps-if : (b : Bool) (m n : Exec A) → Keeps I m → Keeps I n → Keeps I (if b then m else n)
  Keeps-if true m n km kn = km
  Keeps-if false m n km kn = kn

  pub Keeps-transaction : (m : Exec A) → Keeps I m → Keeps I (transaction m)
  unfolding transaction
  Keeps-transaction m k = record {
    kept = λ s i. let (r, s') = m s in rolled I s r s' i (k.kept s i);
  }

  pub Keeps-rescue : (f : Error → Error) (m : Exec A) → Keeps I m → Keeps I (rescue f m)
  unfolding rescue
  Keeps-rescue f m k = record { kept = λ s i. let (r, s') = m s in rescued I f r s' (k.kept s i) }

module _ {I : Repository → Type 0} {A B : Type 0} where
  carried_on :
      (f : A → Exec B) (r : Result A) (s : Repository)
      → ((a : A) → Keeps I (f a))
      → I s
      → I ((lift r >>= f) s).1
  unfolding ◌>>=◌ lift
  carried_on f (ok a) s k i = (k a).kept s i
  carried_on f (err e) s k i = i

  pub Keeps-bind :
      (m : Exec A) (f : A → Exec B) → Keeps I m → ((a : A) → Keeps I (f a)) → Keeps I (m >>= f)
  unfolding ◌>>=◌ lift
  Keeps-bind m f km k = record {
    kept = λ s i. let (r, s') = m s in carried_on f r s' k (km.kept s i);
  }

pub ruleset keeps_rules =
    (Keeps-lift, Keeps-required, Keeps-gets, Keeps-if, Keeps-transaction, Keeps-rescue, Keeps-bind)
