-- ===== src/TeamBuild/Laws.antt =====
-- Proofs about src/maple_next/domain/team_build.py.
use maple_next.Base.{
  ◌≤◌, String, true, false, ◌≡◌, ◌≢◌, refl, Option, none, some, List, [], ◌∷◌, map, arith, Result,
  ok, err, strip, strip_idem, >>=-eq-ok, string_eq, ◌==◌, length, nat_eq, all_distinct,
}
use text.Mathlib.TextEquality.{eq_iff}
use maple_next.TeamBuild.{
  StatPoints, PokemonBuild, TeamBuild, total, require_text, require_texts, normalize_held_item,
  make_stat_points, make_pokemon_build, member_by_name, members_by_name, outside_team,
  selected_members,
}

-- Accepted points keep every limit of the game, and are kept as they were given.
pub make_stat_points-bounds :
    (s s' : StatPoints)
    → make_stat_points s ≡ ok s'
    → (s' ≡ s)
      × (s.hp ≤ 32)
      × (s.attack ≤ 32)
      × (s.defense ≤ 32)
      × (s.special_attack ≤ 32)
      × (s.special_defense ≤ 32)
      × (s.speed ≤ 32)
      × (total s ≤ 66)
unfolding make_stat_points
make_stat_points-bounds s s' h = ground arith

require_text_lem : (t f u : String) → require_text t f ≡ ok u → require_text u f ≡ ok u
unfolding require_text
require_text_lem t f u h = ground (arith, strip_idem t)

require_texts_lem : (ts us : List String) → require_texts ts ≡ ok us → require_texts us ≡ ok us
unfolding require_texts
require_texts_lem [] us h = ground arith
require_texts_lem (t ∷ ts) us h =
    let (u, first, rest) = >>=-eq-ok (require_text t "move") _ h in
    let (vs, more, last) = >>=-eq-ok (require_texts ts) _ rest in
    let again = require_text_lem t "move" u first in
    let again' = require_texts_lem ts vs more in ground (arith, again, again')

member_by_name_lem :
    (ms : List PokemonBuild) (name : String) (m : PokemonBuild)
    → member_by_name ms name ≡ ok m
    → m.pokemon_name ≡ name
unfolding member_by_name
member_by_name_lem [] name m h = cc
member_by_name_lem (x ∷ ms) name m h =
    ground (arith, eq_iff x.pokemon_name name, member_by_name_lem ms name m)

members_by_name_lem :
    (ms : List PokemonBuild) (names : List String) (rs : List PokemonBuild)
    → members_by_name ms names ≡ ok rs
    → map (λ r. r.pokemon_name) rs ≡ names
unfolding members_by_name
members_by_name_lem ms [] rs h = ground arith
members_by_name_lem ms (name ∷ names) rs h =
    let (m, first, rest) = >>=-eq-ok (member_by_name ms name) _ h in
    let (more, found, last) = >>=-eq-ok (members_by_name ms names) _ rest in
    let named = member_by_name_lem ms name m first in
    let named' = members_by_name_lem ms names more found in ground (arith, named, named')

outside_team-ok {ℓ} : {A : Type ℓ} (m : Result A) (a : A) → outside_team m ≡ ok a → m ≡ ok a
outside_team-ok (ok b) a h = h
outside_team-ok (err e) a h = cc

-- The members that are selected are exactly the three names that were asked for, in that order, and
-- the names are distinct.
pub selected_members-names :
    (t : TeamBuild) (names : List String) (rs : List PokemonBuild)
    → selected_members t names ≡ ok rs
    → (map (λ r. r.pokemon_name) rs ≡ names) × (length names ≡ 3) × (all_distinct names ≡ true)
unfolding selected_members
selected_members-names t names rs h =
    let found : outside_team (members_by_name t.members names) ≡ ok rs = ground arith in
    (
      members_by_name_lem t.members names rs (outside_team-ok _ rs found),
      ground arith,
      ground arith,
    )

require_texts-length : (ts us : List String) → require_texts ts ≡ ok us → length us ≡ length ts
unfolding require_texts
require_texts-length [] us h = ground arith
require_texts-length (t ∷ ts) us h =
    let (u, first, rest) = >>=-eq-ok (require_text t "move") _ h in
    let (vs, more, last) = >>=-eq-ok (require_texts ts) _ rest in
    let same = require_texts-length ts vs more in ground (arith, same)

normalize_held_item_lem :
    (i j : Option String)
    → normalize_held_item i ≡ ok j
    → j ≢ some "なし"
    → normalize_held_item j ≡ ok j
unfolding normalize_held_item
normalize_held_item_lem none j h n = ground arith
normalize_held_item_lem (some i) none h n = refl
normalize_held_item_lem (some i) (some j) h n =
    ground (arith, require_text_lem i "held_item" j, eq_iff j "なし")

-- Building again from what was built changes nothing, unless the built held item is the word "なし".
pub make_pokemon_build_idem :
    (b c : PokemonBuild)
    → make_pokemon_build b ≡ ok c
    → c.held_item ≢ some "なし"
    → make_pokemon_build c ≡ ok c
unfolding make_pokemon_build
make_pokemon_build_idem b c h n = ground (
  arith,
  require_text_lem b.pokemon_name "pokemon_name" c.pokemon_name,
  require_texts_lem b.moves c.moves,
  require_texts-length b.moves c.moves,
  normalize_held_item_lem b.held_item c.held_item,
  require_text_lem b.ability "ability" c.ability,
  require_text_lem b.nature "nature" c.nature,
)

-- The word for "no item" with spaces round it is kept as an item named so, while the word itself is
-- no item: normalizing the normalized item gives another value.
pub normalize_held_item_spaced :
    (i : String)
    → strip i ≡ "なし"
    → i ≢ "なし"
    → (normalize_held_item (some i) ≡ ok (some "なし")) × (normalize_held_item (some "なし") ≡ ok none)
unfolding normalize_held_item require_text
normalize_held_item_spaced i s n =
    let other : (i == "なし") ≡ false = ground (arith, eq_iff i "なし") in (rw (other, s), refl)
