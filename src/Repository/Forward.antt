-- ===== src/Repository/Forward.antt =====
-- Running a block of steps forward, from what each of them gives.
use maple_next.Base.{Bool, false, ◌≡◌, refl, Option, some, Result, ok, Error}
use maple_next.Repository.{Repository, Exec, ◌>>=◌, lift, required, guard, transaction, rescue}

module _ {A B : Type 0} (f : A → Exec B) (a : A) (s t : Repository) (r : Result B × Repository)
    (k : f a t ≡ r) where
  pub step : (m : Exec A) → m s ≡ (ok a, t) → (m >>= f) s ≡ r
  unfolding ◌>>=◌ lift
  step m h = rw h k

module _ {A B : Type 0} (f : A → Exec B) (a : A) (s : Repository) (r : Result B × Repository)
    (k : f a s ≡ r) where
  pub given : (o : Result A) → o ≡ ok a → (lift o >>= f) s ≡ r
  unfolding ◌>>=◌ lift
  given o h = rw h k

  pub present : (e : Error) (o : Option A) → o ≡ some a → (required e o >>= f) s ≡ r
  unfolding ◌>>=◌ required lift
  present e o h = rw h k

module _ {B : Type 0} (f : Unit → Exec B) (s : Repository) (r : Result B × Repository)
    (k : f tt s ≡ r) where
  pub passed : (b : Bool) (e : Error) → b ≡ false → (guard b e >>= f) s ≡ r
  unfolding ◌>>=◌ lift
  passed b e h = rw h k

pub commits :
    {A : Type 0} (m : Exec A) (s t : Repository) (a : A)
    → m s ≡ (ok a, t)
    → transaction m s ≡ (ok a, t)
unfolding transaction
commits m s t a h = rw h refl

pub rescued :
    {A : Type 0} (f : Error → Error) (m : Exec A) (s t : Repository) (a : A)
    → m s ≡ (ok a, t)
    → rescue f m s ≡ (ok a, t)
unfolding rescue
rescued f m s t a h = rw h refl
