-- ===== src/Outputs/Examples.antt =====
-- Runs of src/handlers/output_management.rs on two outputs of src/winit.rs.
use minde.Base.{
  ℕ, ◌≤◌, ◌⊎◌, pos_part, neg_part, ◌-ℤ◌, Distinct, ◌≡◌, ◌≢◌, refl, List, [], ◌∷◌, map, none, some,
  true, false, ◌==◌, if◌then◌else◌, pos, negsuc, ok, err, All, Any, cons≢nil, some-injective,
  none-ne-some, if-cases, inl, inr, arith,
}
use minde.Outputs.{
  Mode, same_size, HeadChange, new_change, HeadFacts, ResolvedChange, Advertised, requested_mode,
  no_enabled_head, backend,
}
use minde.Outputs.Layer.{Compositor, Same}
use minde.Outputs.Overflow.{near_mode-rate}
use minde.Outputs.Validate.{
  nearest_advertised_mode, near_mode, validate, validate_loop, check_change, find_facts,
  find_resolved, resolve_change, resolve_mode, contains_mode, enabled_after,
}
use minde.Outputs.Accepted.{Checked, change_of, output_of, LeavesHead, validate-Accepted}
use minde.Outputs.Refused.{Explains, validate-Explains}
use minde.Outputs.Restore.{Aligned, Restored}
use minde.Outputs.Atomic.{apply_output_configuration-Restored}
use minde.Outputs.Apply.{
  is_some, head_facts, advertised_of, apply_output_configuration, apply_loop, commit_head,
  commit_enabled, resolved_change,
}
use minde.Outputs.Commit.{Realized}
use minde.Outputs.Applied.{apply_output_configuration-Realized}
use minde.Outputs.Kept.{apply_output_configuration-enabled}
use minde.Outputs.Plain.{Plain, mode800, mode1280, plain_desktop, at_origin}
use minde.Outputs.Winit.{Winit, winit, realize_head, differs}

-- Outputs 0 and 1 are known, the first of them enabled.
abbrev two_heads : Compositor Plain Winit
two_heads = record {
  world = record {
    states = λ p. at_origin;
    spots = λ p. if 0 == p then some (pos 0, pos 0) else none;
  };
  explicit = λ p. none;
  heads_all = 0 ∷ 1 ∷ [];
  allow_no_heads = false;
  applying_output_config = false;
  backend = record { winit_powered_off = false; redraws = 0 };
}

two_heads-Aligned : (p : ℕ) → Aligned plain_desktop two_heads p
two_heads-Aligned p l e = elim (if-cases (0 == p) (some (pos 0, pos 0)) none (some l) e) [
  | inl on ↦ some-injective (pos 0, pos 0) l on.1
  | inr off ↦ absurd (none-ne-some l off.1)
]

-- The first head is switched off and the second moved, then the second gets a mode that winit refuses.
abbrev swap_heads : List HeadChange
swap_heads =
    new_change 0 false
    ∷ record (new_change 1 true) { mode = some mode800; position = some (pos 10, negsuc 4) }
    ∷ []

refused :
    (apply_output_configuration plain_desktop (winit plain_desktop) two_heads swap_heads false).1
    ≡ err (backend 0)
unfolding apply_output_configuration winit validate validate_loop check_change find_facts
    find_resolved resolve_change resolve_mode requested_mode contains_mode enabled_after apply_loop
    commit_head commit_enabled realize_head differs
refused = refl

apply_output_configuration-Restored_example :
    Restored plain_desktop 1 two_heads
      (apply_output_configuration plain_desktop (winit plain_desktop) two_heads swap_heads false).0
apply_output_configuration-Restored_example =
    apply_output_configuration-Restored plain_desktop (winit plain_desktop) two_heads swap_heads
      false (backend 0) two_heads-Aligned refused 1

-- A rate that is refused by nothing and is 2 ^ 31 below the advertised one.
abbrev overflowing : Mode
overflowing = record { width = pos 800; height = pos 600; refresh = negsuc 2147423647 }

overflows : nearest_advertised_mode (mode800 ∷ []) overflowing ≡ some mode800
unfolding nearest_advertised_mode ◌-ℤ◌
overflows = refl

overflowing_near : near_mode overflowing mode800 ≡ true
unfolding ◌-ℤ◌
overflowing_near = refl

near_mode-rate_example :
    (same_size mode800 overflowing ≡ true)
    × (((pos_part (mode800.refresh -ℤ overflowing.refresh) ≤ 1000)
          × (neg_part (mode800.refresh -ℤ overflowing.refresh) ≤ 1000))
        ⊎ (mode800.refresh -ℤ overflowing.refresh ≡ pos 2147483648))
near_mode-rate_example =
    near_mode-rate overflowing mode800 60000 refl (omega arith) (omega arith) (omega arith)
      overflowing_near

-- The second head takes over from the first.
abbrev move_heads : List HeadChange
move_heads =
    new_change 0 false ∷ record (new_change 1 true) { position = some (pos 10, negsuc 4) } ∷ []

abbrev resolved_heads : List ResolvedChange
resolved_heads =
    record { change = new_change 0 false; mode = none; was_enabled = true }
    ∷ record {
      change = record (new_change 1 true) { position = some (pos 10, negsuc 4) };
      mode = some mode1280;
      was_enabled = false;
    }
    ∷ []

abbrev plain_facts : List HeadFacts
plain_facts = head_facts plain_desktop (winit plain_desktop) two_heads

abbrev plain_outputs : ℕ → Advertised
plain_outputs = advertised_of plain_desktop two_heads.world

accepted : validate plain_outputs plain_facts move_heads false ≡ ok resolved_heads
unfolding validate validate_loop check_change find_facts find_resolved resolve_change resolve_mode
    requested_mode contains_mode enabled_after
accepted = refl

validate-Accepted_example :
    (map change_of resolved_heads ≡ move_heads)
    × Distinct output_of resolved_heads
    × All (Checked plain_outputs plain_facts) resolved_heads
    × ((false ≡ true) ⊎ ((plain_facts ≡ []) ⊎ LeavesHead resolved_heads plain_facts))
validate-Accepted_example =
    validate-Accepted plain_outputs plain_facts move_heads false resolved_heads accepted

dark : validate plain_outputs plain_facts (new_change 0 false ∷ []) false ≡ err no_enabled_head
unfolding validate validate_loop check_change find_facts find_resolved resolve_change enabled_after
dark = refl

validate-Explains_example :
    Explains plain_outputs plain_facts (new_change 0 false ∷ []) false no_enabled_head
validate-Explains_example =
    validate-Explains plain_outputs plain_facts (new_change 0 false ∷ []) false no_enabled_head dark

applied :
    (apply_output_configuration plain_desktop (winit plain_desktop) two_heads move_heads false).1
    ≡ ok tt
unfolding apply_output_configuration winit validate validate_loop check_change find_facts
    find_resolved resolve_change resolve_mode requested_mode contains_mode enabled_after apply_loop
    commit_head commit_enabled realize_head differs
applied = refl

abbrev moved : Compositor Plain Winit
moved =
    (apply_output_configuration plain_desktop (winit plain_desktop) two_heads move_heads false).0

apply_output_configuration-Realized_example :
    (rs : List ResolvedChange) × (map change_of rs ≡ move_heads)
    × Distinct output_of rs
    × All (Checked plain_outputs plain_facts) rs
    × All
        (λ r. Realized plain_desktop moved (resolved_change plain_desktop (winit plain_desktop) r))
        rs
    × ((p : ℕ)
        → All (λ (r : ResolvedChange). r.change.output ≢ p) rs
        → Same plain_desktop p two_heads moved)
apply_output_configuration-Realized_example =
    apply_output_configuration-Realized plain_desktop (winit plain_desktop) two_heads move_heads
      applied

apply_output_configuration-enabled_example :
    Any (λ o. is_some (plain_desktop.mapped moved.world o) ≡ true) (0 ∷ 1 ∷ [])
apply_output_configuration-enabled_example =
    apply_output_configuration-enabled plain_desktop (winit plain_desktop) two_heads move_heads refl
      cons≢nil applied
