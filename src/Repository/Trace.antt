-- ===== src/Repository/Trace.antt =====
-- Reading off what a block of steps has read and written, from a known repository.
use maple_next.Base.{
  Bool, false, ◌≡◌, refl, sym, ap, subst, Option, some, Result, ok, err, Error, arith,
}
use maple_next.Repository.{Repository, Exec, ◌>>=◌, lift, required, guard, rescue}
use maple_next.Repository.Run.{Run, Post, Run-bind, Reads-lift, Reads-guard, Reads-required, Given}
use maple_next.Repository.Atomic.{IsReadOnly}

module _ (s : Repository) where
  abbrev pub Now : Repository → Type 0
  Now t = t ≡ s

  module _ {A : Type 0} where
    looked :
        (r : Result A) (t : Repository)
        → t ≡ s
        → Post (λ a u. (u ≡ s) × (Path (Result A × Repository) (r, t) (ok a, s))) (r, t)
    looked (ok a) t e = (e, ap (λ u. (ok a, u)) e)
    looked (err x) t e = tt

    pub Run-IsReadOnly :
        (m : Exec A) → IsReadOnly m → Run Now m (λ a t. (t ≡ s) × (m s ≡ (ok a, s)))
    Run-IsReadOnly m k = record {
      at = λ t p.
          subst (λ x. Post (λ a u. (u ≡ s) × (m s ≡ (ok a, s))) (m x)) (sym p)
            (let (r, u) = m s in looked r u (k.at s));
    }

    landed :
        (u : Repository) (r : Result A) (v : Repository)
        → ((a : A) (t : Repository) → Path (Result A × Repository) (r, v) (ok a, t) → t ≡ u)
        → Post (λ _ t. t ≡ u) (r, v)
    landed u (ok a) v k = k a v refl
    landed u (err x) v k = tt

    -- A step that writes, and where it ends if it returns.
    pub lands :
        (m : Exec A) (u : Repository)
        → ((a : A) (t : Repository) → m s ≡ (ok a, t) → t ≡ u)
        → Run Now m (λ _ t. t ≡ u)
    lands m u k = record {
      at = λ t p.
          subst (λ x. Post (λ _ v. v ≡ u) (m x)) (sym p) (let (r, v) = m s in landed u r v k);
    }

    rethrown :
        (f : Error → Error) (r : Result A) (v t : Repository) (a : A)
        → rescue f (λ _. (r, v)) s ≡ (ok a, t)
        → Path (Result A × Repository) (r, v) (ok a, t)
    unfolding rescue
    rethrown f (ok b) v t a h = h
    rethrown f (err x) v t a h = ground arith

    read_rescue :
        (f : Error → Error) (r : Result A) (v : Repository)
        → v ≡ s
        → (rescue f (λ _. (r, v)) s).1 ≡ s
    unfolding rescue
    read_rescue f (ok b) v e = e
    read_rescue f (err x) v e = e

    pub rescue-eq-ok :
        (f : Error → Error) (m : Exec A) (a : A) (t : Repository)
        → rescue f m s ≡ (ok a, t)
        → m s ≡ (ok a, t)
    unfolding rescue
    rescue-eq-ok f m a t h = let (r, v) = m s in rethrown f r v t a h

    rescue-reads : (f : Error → Error) (m : Exec A) → (m s).1 ≡ s → (rescue f m s).1 ≡ s
    unfolding rescue
    rescue-reads f m e = let (r, v) = m s in read_rescue f r v e

  module _ {A B : Type 0} {R : B → Repository → Type 0} (f : A → Exec B) where
    -- A step that reads.
    pub looks :
        (m : Exec A)
        → IsReadOnly m
        → ((a : A) → m s ≡ (ok a, s) → Run Now (f a) R)
        → Run Now (m >>= f) R
    looks m q k = Run-bind m f (Run-IsReadOnly m q) (λ a. Given Now (k a))

    pub makes : (r : Result A) → ((a : A) → r ≡ ok a → Run Now (f a) R) → Run Now (lift r >>= f) R
    makes r k = Run-bind (lift r) f (Reads-lift Now r) (λ a. Given Now (k a))

    pub needs :
        (e : Error) (o : Option A)
        → ((a : A) → o ≡ some a → Run Now (f a) R)
        → Run Now (required e o >>= f) R
    needs e o k = Run-bind (required e o) f (Reads-required Now e o) (λ a. Given Now (k a))

module _ (P : Repository → Type 0) {B : Type 0} {R : B → Repository → Type 0}
    (f : Unit → Exec B) where
  pub passes : (b : Bool) (e : Error) → (b ≡ false → Run P (f tt) R) → Run P (guard b e >>= f) R
  passes b e k = Run-bind (guard b e) f (Reads-guard P b e) (λ _. Given P k)

module _ {A : Type 0} where
  pub rescue-IsReadOnly : (f : Error → Error) (m : Exec A) → IsReadOnly m → IsReadOnly (rescue f m)
  rescue-IsReadOnly f m k = record { at = λ s. rescue-reads s f m (k.at s) }

  pub lift-eq-ok : (r : Result A) (a : A) (s t : Repository) → lift r s ≡ (ok a, t) → r ≡ ok a
  unfolding lift
  lift-eq-ok r a s t h = ap (λ x. x.0) h
