-- ===== src/Tests/Stages.antt =====
-- The theorem on src/maple_next/domain/battle_events.py at a concrete preset.
use maple_next.Base.{
  String, false, ◌≡◌, refl, Option, some, [], ◌∷◌, ok, is_blank, member, string_eq,
}
use maple_next.TurnState.Side.{ℤ, pos, negsuc}
use maple_next.BattleEvents.{StageEventPreset, make_preset, apply_stage_event}
use maple_next.BattleEvents.Laws.{AllStages, apply_stage_event-AllStages}

abbrev shell_smash : StageEventPreset
shell_smash = record {
  key = "karawoyaburu";
  label = "からをやぶる";
  deltas = ("attack_stage", pos 2) ∷ ("defense_stage", negsuc 0) ∷ [];
  reset = false;
}

-- Every stage stands at 5.
abbrev at_five : String → Option ℤ
at_five name = some (pos 5)

-- An attack of 5 is raised to no more than 6.
shell_smash_candidates :
    apply_stage_event at_five shell_smash ≡ ("attack_stage", pos 6) ∷ ("defense_stage", pos 4) ∷ []
unfolding apply_stage_event
shell_smash_candidates = refl

shell_smash-built : make_preset shell_smash ≡ ok shell_smash
unfolding make_preset is_blank member
shell_smash-built = refl

apply_stage_event-AllStages_example : AllStages (apply_stage_event at_five shell_smash)
apply_stage_event-AllStages_example =
    apply_stage_event-AllStages at_five shell_smash shell_smash shell_smash-built
