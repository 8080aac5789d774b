-- ===== src/BattleMemory/Projection.antt =====
-- `project_selected_three_builds` of src/maple_next/domain/battle_memory.py and what it projects. The
-- digest of a detailed build is the parameter `sha256`.
use Prim.Native.String.{◌++◌}
use maple_next.Base.{
  String, not, ◌||◌, ◌≡◌, refl, Option, none, some, List, [], ◌∷◌, map, length, any_of, value_error,
  selected_build_error, Result, ok, err, raise_if, ◌>>◌, ◌>>=◌, >>=-eq-ok, arith, ◌!=◌, nat_eq,
  string_eq, option_eq, member, all_distinct, is_some, true, false,
}
use maple_next.TeamBuild.{PokemonBuild, TeamBuild, pokemon_names, selected_members}
use maple_next.TeamBuild.Laws.{selected_members-names}
use maple_next.Models.{names_eq}
use maple_next.BattleMemory.{SelectedBuildStatus, SelectedBuildMember, make_member}

-- A member whose build is known, or of which only the name is.
abbrev confirmed_member : PokemonBuild → SelectedBuildMember
confirmed_member build = record {
  pokemon_name = build.pokemon_name;
  build_status = SelectedBuildStatus.confirmed;
  build = some build;
}

abbrev unknown_member : String → SelectedBuildMember
unknown_member name = record {
  pokemon_name = name;
  build_status = SelectedBuildStatus.unknown;
  build = none;
}

unfoldable pub make_members : List SelectedBuildMember → Result (List SelectedBuildMember)
make_members [] = ok []
make_members (m ∷ ms) = do first ← make_member m; rest ← make_members ms; ok (first ∷ rest)

-- `except ValueError as exc`
abbrev not_in_build {ℓ} : {A : Type ℓ} → Result A → Result A
not_in_build (ok a) = ok a
not_in_build (err (value_error reason)) =
    err (selected_build_error ("SELECTED_MEMBER_NOT_IN_TEAM_BUILD:" ++ reason))
not_in_build (err e) = err e

module _ (sha256 : TeamBuild → String) where
  abbrev project_build :
      List String → List String → TeamBuild → Option String → Result (List SelectedBuildMember)
  project_build three team build none = err (selected_build_error "SELF_TEAM_BUILD_WITHOUT_HASH")
  project_build three team build (some hash) = do
    raise_if (sha256 build != hash) (selected_build_error "SELF_TEAM_BUILD_SHA256_MISMATCH")
    raise_if (pokemon_names build != team) (selected_build_error "SELF_TEAM_BUILD_NAMES_MISMATCH")
    members ← not_in_build (selected_members build three)
    raise_if (length members != 3)
        (selected_build_error "SELECTED_BUILD_PROJECTION_MUST_CONTAIN_THREE")
    make_members (map confirmed_member members)

  abbrev project_by :
      List String
      → List String
      → Option TeamBuild
      → Option String
      → Result (List SelectedBuildMember)
  project_by three team none hash = do
    raise_if (is_some hash) (selected_build_error "SELF_TEAM_BUILD_HASH_WITHOUT_BUILD")
    make_members (map unknown_member three)
  project_by three team (some build) hash = project_build three team build hash

  unfoldable pub project_selected_three_builds :
      List String
      → List String
      → Option TeamBuild
      → Option String
      → Result (List SelectedBuildMember)
  unfolding make_members
  project_selected_three_builds three team build hash = do
    raise_if (length three != 3 || not (all_distinct three))
        (selected_build_error "SELECTED_THREE_MUST_CONTAIN_THREE_UNIQUE_NAMES")
    raise_if (any_of (λ name. not (member name team)) three)
        (selected_build_error "SELECTED_MEMBER_OUTSIDE_REVIEWED_SELF_TEAM")
    project_by three team build hash

make_member_lem : (m n : SelectedBuildMember) → make_member m ≡ ok n → n ≡ m
unfolding make_member
make_member_lem m n h = ground arith

make_members_lem : (ms ns : List SelectedBuildMember) → make_members ms ≡ ok ns → ns ≡ ms
unfolding make_members
make_members_lem [] ns h = ground arith
make_members_lem (m ∷ ms) ns h =
    let (n, first, rest) = >>=-eq-ok (make_member m) _ h in
    let (more, found, last) = >>=-eq-ok (make_members ms) _ rest in
    let same = make_member_lem m n first in
    let same' = make_members_lem ms more found in ground (arith, same, same')

not_in_build-ok {ℓ} : {A : Type ℓ} (m : Result A) (a : A) → not_in_build m ≡ ok a → m ≡ ok a
not_in_build-ok (ok b) a h = h
not_in_build-ok (err (value_error reason)) a h = cc
not_in_build-ok (err e) a h = ground arith

names_of_unknown :
    (names : List String) → map (λ m. m.pokemon_name) (map unknown_member names) ≡ names
names_of_unknown [] = refl
names_of_unknown (n ∷ ns) = rw (names_of_unknown ns) refl

names_of_confirmed :
    (builds : List PokemonBuild)
    → map (λ m. m.pokemon_name) (map confirmed_member builds) ≡ map (λ b. b.pokemon_name) builds
names_of_confirmed [] = refl
names_of_confirmed (b ∷ bs) = rw (names_of_confirmed bs) refl

module _ (sha256 : TeamBuild → String) where
  project_by-names :
      (three team : List String) (build : Option TeamBuild) (hash : Option String)
      (ms : List SelectedBuildMember)
      → project_by sha256 three team build hash ≡ ok ms
      → map (λ m. m.pokemon_name) ms ≡ three
  project_by-names three team none hash ms h =
      let (u, none_given, made) = >>=-eq-ok (raise_if (is_some hash) _) _ h in
      rw (make_members_lem _ ms made) (names_of_unknown three)
  project_by-names three team (some build) none ms h = cc
  project_by-names three team (some build) (some hash) ms h =
      let (u, same_hash, h1) = >>=-eq-ok (raise_if (sha256 build != hash) _) _ h in
      let (v, same_names, h2) = >>=-eq-ok (raise_if (pokemon_names build != team) _) _ h1 in
      let (found, selected, h3) = >>=-eq-ok (not_in_build (selected_members build three)) _ h2 in
      let (w, is_three, made) = >>=-eq-ok (raise_if (length found != 3) _) _ h3 in
      let (names, n, d) =
        selected_members-names build three found (not_in_build-ok _ found selected) in
      rw (make_members_lem _ ms made, names_of_confirmed found) names

  -- The members that are projected are the selected three, in the order in which they were applied,
  -- and each of them is in the reviewed team.
  pub project_selected_three_builds-names :
      (three team : List String) (build : Option TeamBuild) (hash : Option String)
      (ms : List SelectedBuildMember)
      → project_selected_three_builds sha256 three team build hash ≡ ok ms
      → (map (λ m. m.pokemon_name) ms ≡ three)
        × (length three ≡ 3)
        × (all_distinct three ≡ true)
        × (any_of (λ name. not (member name team)) three ≡ false)
  unfolding project_selected_three_builds
  project_selected_three_builds-names three team build hash ms h =
      let (u, checked, h1) =
        >>=-eq-ok (raise_if (length three != 3 || not (all_distinct three)) _) _ h in
      let (v, inside, h2) =
        >>=-eq-ok (raise_if (any_of (λ name. not (member name team)) three) _) _ h1 in
      (project_by-names three team build hash ms h2, ground arith, ground arith, ground arith)
