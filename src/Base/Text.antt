-- ===== src/Base/Text.antt =====
-- `str.strip` and the test `not s.strip()`, over the characters of a text.
use Prim.Native.Nat.{ℕ, suc}
use Prim.Native.Char.{Char, code}
use Prim.Native.String.{String, [], ◌∷◌}
use mathlib.Core.Bool.{Bool, true, false, ◌&&◌, ◌||◌}
use maple_next.Base.Tests.{if◌then◌else◌, leb, nat_eqb}

-- The code points for which `str.isspace` holds.
unfoldable pub is_space : ℕ → Bool
is_space c =
    leb 9 c && leb c 13
    || leb 28 c && leb c 32
    || nat_eqb c 133
    || nat_eqb c 160
    || nat_eqb c 5760
    || leb 8192 c && leb c 8202
    || nat_eqb c 8232
    || nat_eqb c 8233
    || nat_eqb c 8239
    || nat_eqb c 8287
    || nat_eqb c 12288

unfoldable pub strip_left : String → String
unfolding is_space
strip_left [] = []
strip_left (c ∷ s) = let rest = strip_left s in if is_space (code c) then rest else c ∷ s

-- One more character before a text that is stripped on the right.
abbrev pub keep_unless_last : Char → String → String
keep_unless_last c [] = if is_space (code c) then [] else c ∷ []
keep_unless_last c (d ∷ s) = c ∷ d ∷ s

unfoldable pub strip_right : String → String
unfolding is_space
strip_right [] = []
strip_right (c ∷ s) = keep_unless_last c (strip_right s)

unfoldable pub strip : String → String
unfolding strip_left strip_right
strip s = strip_left (strip_right s)

abbrev pub is_empty : String → Bool
is_empty [] = true
is_empty (c ∷ s) = false

-- `not s.strip()`
unfoldable pub is_blank : String → Bool
unfolding strip
is_blank s = is_empty (strip s)

-- `len(s)`
unfoldable pub size : String → ℕ
size [] = 0
size (c ∷ s) = suc (size s)

-- `s.startswith(prefix)`
unfoldable pub starts_with : String → String → Bool
starts_with [] s = true
starts_with (c ∷ prefix) [] = false
starts_with (c ∷ prefix) (d ∷ s) = nat_eqb (code c) (code d) && starts_with prefix s

-- `s.split(c, 1)[0]` for the character with a code.
unfoldable pub before_code : ℕ → String → String
before_code n [] = []
before_code n (c ∷ s) = let rest = before_code n s in if nat_eqb (code c) n then [] else c ∷ rest

-- `s.split(c, 1)[1]`, of a text that has the character.
unfoldable pub after_code : ℕ → String → String
after_code n [] = []
after_code n (c ∷ s) = let rest = after_code n s in if nat_eqb (code c) n then s else rest
