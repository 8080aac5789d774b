-- ===== src/Repository/Atomic.antt =====
-- Actions that write nothing when they raise.
use maple_next.Base.{
  Bool, true, false, ◌≡◌, refl, ◌∙◌, subst, ok, err, Result, Error, if◌then◌else◌,
}
use maple_next.Repository.{Repository, Exec, ◌>>=◌, lift, gets, rescue, transaction}

abbrev pub Raised : {A : Type 0} → Repository → Result A × Repository → Type 0
Raised before (ok a, after) = Unit
Raised before (err e, after) = after ≡ before

pub record IsAtomic {A : Type 0} (m : Exec A) : Type 0 where
  pub at : (s : Repository) → Raised s (m s)

module _ {A : Type 0} where
  rolled_back :
      (s : Repository) (r : Result A) (s' : Repository) → Raised s (transaction (λ _. (r, s')) s)
  unfolding transaction
  rolled_back s (ok a) s' = tt
  rolled_back s (err e) s' = refl

  -- A transaction whose body raises leaves the repository as it was, whatever the body had written.
  pub transaction-IsAtomic : (m : Exec A) → IsAtomic (transaction m)
  unfolding transaction
  transaction-IsAtomic m = record { at = λ s. let (r, s') = m s in rolled_back s r s' }

  lift_at : (r : Result A) (s : Repository) → Raised s (lift r s)
  unfolding lift
  lift_at (ok a) s = tt
  lift_at (err e) s = refl

  pub lift_only-IsAtomic : (r : Result A) → IsAtomic (lift r)
  lift_only-IsAtomic r = record { at = λ s. lift_at r s }

  rescued_at : (f : Error → Error) (r : Result A) (s : Repository) → Raised s (rescue f (lift r) s)
  unfolding rescue lift
  rescued_at f (ok a) s = tt
  rescued_at f (err e) s = refl

module _ {A B : Type 0} (f : A → Exec B) where
  bind_at :
      (r : Result A) (s : Repository) → ((a : A) → IsAtomic (f a)) → Raised s ((lift r >>= f) s)
  unfolding ◌>>=◌ lift
  bind_at (ok a) s k = (k a).at s
  bind_at (err e) s k = refl

  -- A check before the transaction.
  pub lift-IsAtomic : (r : Result A) → ((a : A) → IsAtomic (f a)) → IsAtomic (lift r >>= f)
  lift-IsAtomic r k = record { at = λ s. bind_at r s k }

  rescue_at :
      (g : Error → Error) (r : Result A) (s : Repository)
      → ((a : A) → IsAtomic (f a))
      → Raised s ((rescue g (lift r) >>= f) s)
  unfolding ◌>>=◌ lift rescue
  rescue_at g (ok a) s k = (k a).at s
  rescue_at g (err e) s k = refl

  pub rescue-IsAtomic :
      (g : Error → Error) (r : Result A)
      → ((a : A) → IsAtomic (f a))
      → IsAtomic (rescue g (lift r) >>= f)
  rescue-IsAtomic g r k = record { at = λ s. rescue_at g r s k }

-- Actions that write nothing.
pub record IsReadOnly {A : Type 0} (m : Exec A) : Type 0 where
  pub at : (s : Repository) → (m s).1 ≡ s

module _ {A : Type 0} where
  pub lift-IsReadOnly : (r : Result A) → IsReadOnly (lift r)
  unfolding lift
  lift-IsReadOnly r = record { at = λ s. refl }

  pub gets-IsReadOnly : (f : Repository → A) → IsReadOnly (gets f)
  unfolding gets
  gets-IsReadOnly f = record { at = λ s. refl }

  pub if-IsAtomic :
      (b : Bool) (m n : Exec A) → IsAtomic m → IsAtomic n → IsAtomic (if b then m else n)
  if-IsAtomic true m n km kn = km
  if-IsAtomic false m n km kn = kn

module _ {A B : Type 0} (f : A → Exec B) (k : (a : A) → IsAtomic (f a)) where
  read_at : (r : Result A) (s s' : Repository) → s' ≡ s → Raised s ((lift r >>= f) s')
  unfolding ◌>>=◌ lift
  read_at (ok a) s s' e = subst (λ t. Raised t (f a s')) e ((k a).at s')
  read_at (err x) s s' e = e

  -- A read before the transaction.
  pub read-IsAtomic : (m : Exec A) → IsReadOnly m → IsAtomic (m >>= f)
  unfolding ◌>>=◌ lift
  read-IsAtomic m r = record { at = λ s. let (x, s') = m s in read_at x s s' (r.at s) }

module _ {A B : Type 0} (f : A → Exec B) (k : (a : A) → IsReadOnly (f a)) where
  read_on : (r : Result A) (s s' : Repository) → s' ≡ s → ((lift r >>= f) s').1 ≡ s
  unfolding ◌>>=◌ lift
  read_on (ok a) s s' e = (k a).at s' ∙ e
  read_on (err x) s s' e = e

  pub bind-IsReadOnly : (m : Exec A) → IsReadOnly m → IsReadOnly (m >>= f)
  unfolding ◌>>=◌ lift
  bind-IsReadOnly m r = record { at = λ s. let (x, s') = m s in read_on x s s' (r.at s) }
