-- ===== src/Base/Strip.antt =====
-- The laws of `strip`.
use Prim.Native.Char.{Char, code}
use Prim.Native.String.{String, [], ◌∷◌}
use mathlib.Core.Path.{◌≡◌, refl, ap, ◌∙◌}
use mathlib.Core.Logic.{inl, inr}
use maple_next.Base.Tests.{Bool-cases}
use maple_next.Base.Text.{is_space, strip_left, strip_right, strip, keep_unless_last}

keep-strip :
    (c : Char) (s : String)
    → strip_right s ≡ s
    → strip_right (keep_unless_last c s) ≡ keep_unless_last c s
unfolding strip_right
keep-strip c [] h = elim (Bool-cases (is_space (code c))) [
  | inl e ↦ rw e refl
  | inr e ↦ rw e (rw e refl)
]
keep-strip c (d ∷ s) h = rw h refl

strip_right_idem : (s : String) → strip_right (strip_right s) ≡ strip_right s
unfolding strip_right
strip_right_idem [] = refl
strip_right_idem (c ∷ s) = keep-strip c (strip_right s) (strip_right_idem s)

strip_left_idem : (s : String) → strip_left (strip_left s) ≡ strip_left s
unfolding strip_left
strip_left_idem [] = refl
strip_left_idem (c ∷ s) = elim (Bool-cases (is_space (code c))) [
  | inl e ↦ rw e (strip_left_idem s)
  | inr e ↦ rw e (rw e refl)
]

keep-tail : (c : Char) (t s : String) → keep_unless_last c t ≡ c ∷ s → t ≡ s
keep-tail c [] s h = elim (Bool-cases (is_space (code c))) [
  | inl e ↦ let none_left = rw e at h in cc
  | inr e ↦ let one_left = rw e at h in cc
]
keep-tail c (d ∷ t) s h = cc

strip_right-strip_left :
    (s : String) → strip_right s ≡ s → strip_right (strip_left s) ≡ strip_left s
unfolding strip_left strip_right
strip_right-strip_left [] h = refl
strip_right-strip_left (c ∷ s) h = elim (Bool-cases (is_space (code c))) [
  | inl e ↦ rw e (strip_right-strip_left s (keep-tail c (strip_right s) s h))
  | inr e ↦ rw e h
]

-- Stripping twice is stripping once.
pub strip_idem : (s : String) → strip (strip s) ≡ strip s
unfolding strip
strip_idem s =
    ap strip_left (strip_right-strip_left (strip_right s) (strip_right_idem s))
    ∙ strip_left_idem (strip_right s)
