-- ===== src/TeamBuild.antt =====
-- src/maple_next/domain/team_build.py: the value objects of a detailed team build. The methods are
-- modelled on typed values; the canonical JSON text and its digest are left to a parameter `sha256`.
pub mod Laws
use Prim.Native.String.{◌++◌}
use maple_next.Base.{
  ℕ, ◌+◌, ◌-◌, String, Bool, not, ◌||◌, Option, none, some, List, [], ◌∷◌, map, ltb, length, keep,
  if◌then◌else◌, Result, ok, err, value_error, key_error, raise_if, ◌>>=◌, ◌>>◌, strip, is_blank,
  is_empty, ◌==◌, ◌!=◌, nat_eq, string_eq, all_distinct, member,
}

abbrev pub stat_point_per_stat_max : ℕ
stat_point_per_stat_max = 32

abbrev pub stat_point_total_max : ℕ
stat_point_total_max = 66

-- `_require_text(value, field_name)`
unfoldable pub require_text : String → String → Result String
require_text value field_name = do
  let normalized = strip value
  raise_if (is_empty normalized) (value_error (field_name ++ " must not be blank"))
  ok normalized

-- `_require_stat(value, field_name)`; a negative number is not a value of this type.
unfoldable pub require_stat : ℕ → String → Result ℕ
require_stat value field_name = do
  raise_if (ltb stat_point_per_stat_max value)
      (value_error (field_name ++ " must be between 0 and 32"))
  ok value

pub record StatPoints : Type 0 where
  pub hp : ℕ
  pub attack : ℕ
  pub defense : ℕ
  pub special_attack : ℕ
  pub special_defense : ℕ
  pub speed : ℕ

unfoldable pub total : StatPoints → ℕ
total s = s.hp + s.attack + s.defense + s.special_attack + s.special_defense + s.speed

-- `remaining`, for points whose total is within the limit
unfoldable pub remaining : StatPoints → ℕ
remaining s = stat_point_total_max - total s

-- `ChampionsStatPoints.__post_init__`
unfoldable pub make_stat_points : StatPoints → Result StatPoints
unfolding require_stat total
make_stat_points s = do
  hp ← require_stat s.hp "hp"
  attack ← require_stat s.attack "attack"
  defense ← require_stat s.defense "defense"
  special_attack ← require_stat s.special_attack "special_attack"
  special_defense ← require_stat s.special_defense "special_defense"
  speed ← require_stat s.speed "speed"
  raise_if (ltb stat_point_total_max (total s)) (value_error "total stat points must be at most 66")
  ok s

pub record PokemonBuild : Type 0 where
  pub pokemon_name : String
  pub moves : List String
  pub held_item : Option String
  pub ability : String
  pub nature : String
  pub stat_points : StatPoints

unfoldable pub require_texts : List String → Result (List String)
require_texts [] = ok []
require_texts (move ∷ moves) = do
  first ← require_text move "move"
  rest ← require_texts moves
  ok (first ∷ rest)

-- A held item that is the word for "none" is no item.
unfoldable pub normalize_held_item : Option String → Result (Option String)
normalize_held_item none = ok none
normalize_held_item (some item) =
    if item == "なし" then ok none else (do text ← require_text item "held_item"; ok (some text))

-- `ChampionsPokemonBuild.__post_init__`: the fields come back normalized.
unfoldable pub make_pokemon_build : PokemonBuild → Result PokemonBuild
make_pokemon_build b = do
  pokemon_name ← require_text b.pokemon_name "pokemon_name"
  raise_if (ltb (length b.moves) 1 || ltb 4 (length b.moves))
      (value_error "moves must contain between 1 and 4 entries")
  moves ← require_texts b.moves
  raise_if (not (all_distinct moves)) (value_error "moves must be unique")
  held_item ← normalize_held_item b.held_item
  ability ← require_text b.ability "ability"
  nature ← require_text b.nature "nature"
  ok (record {
    pokemon_name = pokemon_name;
    moves = moves;
    held_item = held_item;
    ability = ability;
    nature = nature;
    stat_points = b.stat_points;
  })

pub record TeamBuild : Type 0 where
  pub schema_version : String
  pub game : String
  pub name : String
  pub battle_format : String
  pub members : List PokemonBuild

-- `ChampionsTeamBuild.pokemon_names`
unfoldable pub pokemon_names : TeamBuild → List String
pokemon_names t = map (λ member. member.pokemon_name) t.members

-- `ChampionsTeamBuild.__post_init__`
unfoldable pub make_team_build : TeamBuild → Result TeamBuild
unfolding pokemon_names
make_team_build t = do
  raise_if (t.schema_version != "maple-team.v2")
      (value_error "schema_version must be maple-team.v2")
  raise_if (t.game != "pokemon-champions") (value_error "game must be pokemon-champions")
  raise_if (t.battle_format != "SINGLE_3") (value_error "battle_format must be SINGLE_3")
  name ← require_text t.name "name"
  raise_if (length t.members != 6) (value_error "members must contain exactly six entries")
  raise_if (not (all_distinct (pokemon_names t))) (value_error "pokemon names must be unique")
  ok (record t { name = name })

-- `member_by_name`
unfoldable pub member_by_name : List PokemonBuild → String → Result PokemonBuild
member_by_name [] name = err (key_error name)
member_by_name (m ∷ ms) name = if m.pokemon_name == name then ok m else member_by_name ms name

unfoldable pub members_by_name : List PokemonBuild → List String → Result (List PokemonBuild)
members_by_name ms [] = ok []
members_by_name ms (name ∷ names) = do
  first ← member_by_name ms name
  rest ← members_by_name ms names
  ok (first ∷ rest)

-- `except KeyError`; the lookups raise no other error.
abbrev pub outside_team {ℓ} : {A : Type ℓ} → Result A → Result A
outside_team (ok a) = ok a
outside_team (err e) = err (value_error "selected member is outside the team")

-- `selected_members`, called with one sequence of names
unfoldable pub selected_members : TeamBuild → List String → Result (List PokemonBuild)
selected_members t names = do
  raise_if (length names != 3 || not (all_distinct names))
      (value_error "selected members must contain exactly three unique names")
  outside_team (members_by_name t.members names)
