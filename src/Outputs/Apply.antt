-- ===== src/Outputs/Apply.antt =====
-- src/handlers/output_management.rs: `apply_output_configuration` and `commit_head`, and the marks
-- of src/state.rs that they set.
use minde.Base.{
  ℕ, List, [], ◌∷◌, map, Option, none, some, Bool, true, false, not, ◌||◌, ◌==◌, if◌then◌else◌, ℤ,
  Result, ok, err,
}
use minde.Outputs.{
  wl_to_transform, to_scale, HeadChange, new_change, HeadFacts, ResolvedChange, Advertised,
  OutputConfigError, backend,
}
use minde.Outputs.Validate.{validate}
use minde.Outputs.Layer.{OutputState, Desktop, Compositor, Backend, value_or}

-- `()`.
abbrev pub Done : Type 0
Done = Unit {0}

abbrev pub is_some {ℓ} : {A : Type ℓ} → Option A → Bool
is_some none = false
is_some (some a) = true

abbrev pub map_option {ℓ κ} : {A : Type ℓ} {B : Type κ} → (A → B) → Option A → Option B
map_option f none = none
map_option f (some a) = some (f a)

-- `set_position_explicit`: a mark that is there is set.
abbrev pub set_mark : Option Bool → Bool → Option Bool
set_mark none explicit = none
set_mark (some old) explicit = some explicit

abbrev pub insert_mark : Option Bool → Option Bool
insert_mark none = some false
insert_mark (some old) = some old

pub record HeadBackup : Type 0 where
  pub output : ℕ
  pub state : OutputState
  pub enabled : Bool
  pub adaptive_sync : Option Bool
  pub position_explicit : Bool

abbrev pub advertised_of : (d : Desktop) → d.World → ℕ → Advertised
advertised_of d w o = record {
  modes = d.modes w o;
  preferred_mode = d.preferred_mode w o;
  current_mode = (d.state w o).current_mode;
}

module _ (d : Desktop) where
  -- The generic part of a revert, after the backend's.
  abbrev pub restore_world : d.World → HeadBackup → d.World
  restore_world w k =
      let w' =
        d.change_current_state w k.output k.state.current_mode (some k.state.transform)
          (some k.state.scale) (some k.state.location) in
      if k.enabled then d.map_output w' k.output k.state.location else d.unmap_output w' k.output

module _ (d : Desktop) {B : Type 0} where
  abbrev pub with_world : Compositor d.World B → d.World → Compositor d.World B
  with_world s w = record s { world = w }

  unfoldable pub mark_position_explicit : Compositor d.World B → ℕ → Compositor d.World B
  mark_position_explicit s o = record s {
    explicit = λ p. if o == p then set_mark (insert_mark (s.explicit p)) true else s.explicit p;
  }

  unfoldable pub mark_position_auto : Compositor d.World B → ℕ → Compositor d.World B
  mark_position_auto s o = record s {
    explicit = λ p. if o == p then set_mark (s.explicit p) false else s.explicit p;
  }

  unfoldable pub position_is_explicit : Compositor d.World B → ℕ → Bool
  position_is_explicit s o = value_or false (s.explicit o)

  abbrev pub output_enabled : Compositor d.World B → ℕ → Bool
  output_enabled s o = is_some (d.mapped s.world o)

  abbrev pub mark_if_placed : Compositor d.World B → ℕ → Option (ℤ × ℤ) → Compositor d.World B
  mark_if_placed s o none = s
  mark_if_placed s o (some l) = mark_position_explicit s o

  -- The mapping at the end of `commit_head`.
  abbrev pub map_committed : Compositor d.World B → ℕ → Option (ℤ × ℤ) → Compositor d.World B
  map_committed s o position =
      if not (is_some (d.mapped s.world o)) || is_some position
      then with_world s (d.map_output s.world o (value_or ((d.state s.world o).location) position))
      else s

  unfoldable pub commit_enabled : Compositor d.World B → HeadChange → Compositor d.World B
  unfolding mark_position_explicit wl_to_transform to_scale
  commit_enabled s c =
      let marked = mark_if_placed s c.output c.position in
      map_committed
        (with_world marked (
          d.change_current_state marked.world c.output c.mode
            (map_option wl_to_transform c.transform) (map_option to_scale c.scale) c.position))
        c.output c.position

  unfoldable pub commit_head : Compositor d.World B → HeadChange → Compositor d.World B
  commit_head s c =
      if c.enabled then commit_enabled s c else with_world s (d.unmap_output s.world c.output)

  unfoldable pub restore_head : HeadBackup → Compositor d.World B → Compositor d.World B
  unfolding mark_position_auto
  restore_head k s =
      let restored = with_world s (restore_world d s.world k) in
      if k.position_explicit then restored else mark_position_auto restored k.output

module _ (d : Desktop) {B : Type 0} (b : Backend d B) where
  abbrev pub facts_of : Compositor d.World B → ℕ → HeadFacts
  facts_of s o = record {
    output = o;
    enabled = output_enabled d s o;
    adaptive_sync = b.adaptive_sync s o;
  }

  abbrev pub head_facts : Compositor d.World B → List HeadFacts
  head_facts s = map (facts_of s) s.heads_all

  abbrev pub backup_of : Compositor d.World B → ResolvedChange → HeadBackup
  backup_of s r = record {
    output = r.change.output;
    state = d.state s.world r.change.output;
    enabled = r.was_enabled;
    adaptive_sync = b.adaptive_sync s r.change.output;
    position_explicit = position_is_explicit d s r.change.output;
  }

  -- The change with its mode resolved and a custom mode folded in.
  abbrev pub resolved_change : ResolvedChange → HeadChange
  resolved_change r = record (r.change) { mode = r.mode; custom_mode = none }

  -- The loop over the heads, with the backups, the last one first.
  abbrev pub after_realize :
      (Compositor d.World B → Compositor d.World B × List HeadBackup × Option ℕ)
      → HeadChange
      → List HeadBackup
      → Compositor d.World B × Option ℕ
      → Compositor d.World B × List HeadBackup × Option ℕ
  after_realize next change backups (s, some msg) = (s, backups, some msg)
  after_realize next change backups (s, none) = next (commit_head d s change)

  unfoldable pub apply_loop :
      List ResolvedChange
      → List HeadBackup
      → Compositor d.World B
      → Compositor d.World B × List HeadBackup × Option ℕ
  apply_loop [] backups s = (s, backups, none)
  apply_loop (r ∷ rs) backups s =
      after_realize (apply_loop rs (backup_of s r ∷ backups)) (resolved_change r)
        (backup_of s r ∷ backups) (b.realize_head s r.change.output (resolved_change r))

  abbrev pub revert_change : HeadBackup → HeadChange
  revert_change k = record (new_change k.output k.enabled) {
    mode = k.state.current_mode;
    position = some k.state.location;
    adaptive_sync = k.adaptive_sync;
  }

  unfoldable pub revert : List HeadBackup → Compositor d.World B → Compositor d.World B
  revert [] s = s
  revert (k ∷ backups) s =
      revert backups (restore_head d k (b.realize_head s k.output (revert_change k)).0)

  abbrev pub set_applying : Bool → Compositor d.World B → Compositor d.World B
  set_applying applying s = record s { applying_output_config = applying }

  abbrev pub finish_apply :
      Compositor d.World B × List HeadBackup × Option ℕ
      → Compositor d.World B × Result Done OutputConfigError
  finish_apply (s, backups, none) = (set_applying false s, ok tt)
  finish_apply (s, backups, some msg) = (set_applying false (revert backups s), err (backend msg))

  abbrev pub apply_resolved :
      Compositor d.World B
      → Bool
      → Result (List ResolvedChange) OutputConfigError
      → Compositor d.World B × Result Done OutputConfigError
  apply_resolved s test_only (err e) = (s, err e)
  apply_resolved s true (ok rs) = (s, ok tt)
  apply_resolved s false (ok rs) = finish_apply (apply_loop rs [] (set_applying true s))

  unfoldable pub apply_output_configuration :
      Compositor d.World B
      → List HeadChange
      → Bool
      → Compositor d.World B × Result Done OutputConfigError
  apply_output_configuration s changes test_only =
      apply_resolved s test_only
        (validate (advertised_of d s.world) (head_facts s) changes s.allow_no_heads)
