-- ===== src/Outputs/Winit.antt =====
-- src/winit.rs: `realize_head`, the backend whose output has the size of its window.
use minde.Base.{
  ℕ, suc, ◌≡◌, refl, ap, Option, none, some, Bool, true, false, not, ◌&&◌, if◌then◌else◌, if-both,
}
use minde.Outputs.{Mode, same_mode, HeadChange, requested_mode}
use minde.Outputs.Layer.{Desktop, Compositor, Backend}

-- The state that the backend keeps, and how often it asked for a redraw.
pub record Winit : Type 0 where
  pub winit_powered_off : Bool
  pub redraws : ℕ

-- `if let Some(mode) = … && Some(mode) != output.current_mode()`.
unfoldable pub differs : Option Mode → Option Mode → Bool
differs none current = false
differs (some m) none = true
differs (some m) (some n) = not (same_mode m n)

abbrev pub asks_sync : Option Bool → Bool
asks_sync (some true) = true
asks_sync _ = false

module _ (d : Desktop) where
  abbrev pub winit_realized : Compositor d.World Winit → Bool → Compositor d.World Winit
  winit_realized s enabled = record s {
    backend = record {
      winit_powered_off = enabled && s.backend.winit_powered_off;
      redraws = suc s.backend.redraws;
    };
  }

  -- The messages are numbered: 0 for a mode change, 1 for adaptive sync.
  unfoldable pub realize_head :
      Compositor d.World Winit → ℕ → HeadChange → Compositor d.World Winit × Option ℕ
  unfolding differs requested_mode
  realize_head s o c =
      if differs (requested_mode c) (d.state s.world o).current_mode
      then (s, some 0)
      else if asks_sync c.adaptive_sync
      then (s, some 1)
      else (winit_realized s c.enabled, none)

  pub realize_head-keeps :
      (s : Compositor d.World Winit) (o : ℕ) (c : HeadChange)
      → ((realize_head s o c).0.world ≡ s.world) × ((realize_head s o c).0.explicit ≡ s.explicit)
  unfolding realize_head
  realize_head-keeps s o c =
      if-both
        (λ (x : Compositor d.World Winit × Option ℕ).
          (x.0.world ≡ s.world) × (x.0.explicit ≡ s.explicit))
        (differs (requested_mode c) (d.state s.world o).current_mode) (s, some 0)
        (if asks_sync c.adaptive_sync then (s, some 1) else (winit_realized s c.enabled, none))
        (refl, refl)
        (if-both
          (λ (x : Compositor d.World Winit × Option ℕ).
            (x.0.world ≡ s.world) × (x.0.explicit ≡ s.explicit))
          (asks_sync c.adaptive_sync) (s, some 1) (winit_realized s c.enabled, none) (refl, refl)
          (refl, refl))

  -- winit drives its output without touching the generic state, and has no adaptive sync.
  unfoldable pub winit : Backend d Winit
  winit = record {
    realize_head = realize_head;
    adaptive_sync = λ s o. none;
    realize-Same = λ s o p c ne.
        let (w, e) = realize_head-keeps s o c in
        (ap (λ x. d.state x p) w, ap (λ x. d.mapped x p) w, ap (λ (x : ℕ → Option Bool). x p) e);
    realize-explicit = λ s o c. (realize_head-keeps s o c).1;
  }
