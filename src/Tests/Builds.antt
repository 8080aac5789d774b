-- ===== src/Tests/Builds.antt =====
-- The theorems on src/maple_next/domain/team_build.py at a concrete team.
use mathlib.Core.Bool.{false≢true}
use maple_next.Base.{
  String, true, ◌≡◌, ◌≤◌, refl, none, some, [], ◌∷◌, map, length, ok, strip, all_distinct, nat_eq,
  string_eq, option_eq, member,
}
use maple_next.TeamBuild.{
  StatPoints, PokemonBuild, TeamBuild, total, require_stat, make_stat_points, make_pokemon_build,
  normalize_held_item, require_text, require_texts, selected_members, members_by_name,
  member_by_name,
}
use maple_next.TeamBuild.Laws.{
  make_stat_points-bounds, selected_members-names, make_pokemon_build_idem,
  normalize_held_item_spaced,
}
use maple_next.Tests.Turns.{apart}

abbrev points : StatPoints
points = record {
  hp = 2;
  attack = 32;
  defense = 0;
  special_attack = 0;
  special_defense = 0;
  speed = 32;
}

abbrev built : String → PokemonBuild
built name = record {
  pokemon_name = name;
  moves = "Earthquake" ∷ "Protect" ∷ [];
  held_item = some "Leftovers";
  ability = "Rough Skin";
  nature = "Jolly";
  stat_points = points;
}

abbrev team : TeamBuild
team = record {
  schema_version = "maple-team.v2";
  game = "pokemon-champions";
  name = "Sand";
  battle_format = "SINGLE_3";
  members = built "A" ∷ built "B" ∷ built "C" ∷ built "D" ∷ built "E" ∷ built "F" ∷ [];
}

points_made : make_stat_points points ≡ ok points
unfolding make_stat_points require_stat total
points_made = refl

make_stat_points-bounds_example :
    (points ≡ points)
    × (points.hp ≤ 32)
    × (points.attack ≤ 32)
    × (points.defense ≤ 32)
    × (points.special_attack ≤ 32)
    × (points.special_defense ≤ 32)
    × (points.speed ≤ 32)
    × (total points ≤ 66)
make_stat_points-bounds_example = make_stat_points-bounds points points points_made

three_found :
    selected_members team ("C" ∷ "A" ∷ "F" ∷ []) ≡ ok (built "C" ∷ built "A" ∷ built "F" ∷ [])
unfolding selected_members members_by_name member_by_name all_distinct member
three_found = refl

selected_members-names_example :
    (map (λ r. r.pokemon_name) (built "C" ∷ built "A" ∷ built "F" ∷ []) ≡ "C" ∷ "A" ∷ "F" ∷ [])
    × (length {A = String} ("C" ∷ "A" ∷ "F" ∷ []) ≡ 3)
    × (all_distinct {A = String} ("C" ∷ "A" ∷ "F" ∷ []) ≡ true)
selected_members-names_example =
    selected_members-names team ("C" ∷ "A" ∷ "F" ∷ []) (built "C" ∷ built "A" ∷ built "F" ∷ [])
      three_found

abbrev spaced : PokemonBuild
spaced = record (built "A") { pokemon_name = " A " }

spaced_made : make_pokemon_build spaced ≡ ok (built "A")
unfolding make_pokemon_build require_text require_texts normalize_held_item strip all_distinct
    member
spaced_made = refl

make_pokemon_build_idem_example : make_pokemon_build (built "A") ≡ ok (built "A")
make_pokemon_build_idem_example =
    make_pokemon_build_idem spaced (built "A") spaced_made
      (λ h. false≢true ((option_eq.beq_iff (some "Leftovers") (some "なし")).1 h))

normalize_held_item_spaced_example :
    (normalize_held_item (some " なし ") ≡ ok (some "なし"))
    × (normalize_held_item (some "なし") ≡ ok none)
unfolding strip
normalize_held_item_spaced_example = normalize_held_item_spaced " なし " refl (apart " なし " "なし" refl)
