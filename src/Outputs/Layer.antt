-- ===== src/Outputs/Layer.antt =====
-- smithay's `Output` and `Space`, as the compositor uses them, and what a backend of the compositor
-- is to the generic part of an output configuration.
use minde.Base.{ℕ, ◌≡◌, List, Option, none, some, Bool, false, ◌==◌, if◌then◌else◌, ℤ}
use minde.Outputs.{Mode, Scale, Transform, HeadChange, or_else}

-- What the compositor reads of an `Output`.
pub record OutputState : Type 0 where
  pub current_mode : Option Mode
  pub location : ℤ × ℤ
  pub scale : Scale
  pub transform : Transform

abbrev pub value_or {ℓ} : {A : Type ℓ} → A → Option A → A
value_or a none = a
value_or a (some b) = b

abbrev pub updated :
    Option Mode → Option Transform → Option Scale → Option (ℤ × ℤ) → OutputState → OutputState
updated mode transform scale location s = record {
  current_mode = or_else mode s.current_mode;
  location = value_or s.location location;
  scale = value_or s.scale scale;
  transform = value_or s.transform transform;
}

-- The outputs and the space that they are mapped in. `change_current_state` sets what it is given,
-- and a location of the space is not the output's own.
pub record Desktop : Type 1 where
  pub World : Type 0
  pub state : World → ℕ → OutputState
  pub mapped : World → ℕ → Option (ℤ × ℤ)
  pub modes : World → ℕ → List Mode
  pub preferred_mode : World → ℕ → Option Mode
  pub change_current_state :
      World → ℕ → Option Mode → Option Transform → Option Scale → Option (ℤ × ℤ) → World
  pub map_output : World → ℕ → ℤ × ℤ → World
  pub unmap_output : World → ℕ → World
  pub state-change :
      (w : World) (o p : ℕ) (m : Option Mode) (t : Option Transform) (s : Option Scale)
      (l : Option (ℤ × ℤ))
      → state (change_current_state w o m t s l) p
        ≡ (if o == p then updated m t s l (state w p) else state w p)
  pub mapped-change :
      (w : World) (o p : ℕ) (m : Option Mode) (t : Option Transform) (s : Option Scale)
      (l : Option (ℤ × ℤ))
      → mapped (change_current_state w o m t s l) p ≡ mapped w p
  pub state-map : (w : World) (o p : ℕ) (l : ℤ × ℤ) → state (map_output w o l) p ≡ state w p
  pub mapped-map :
      (w : World) (o p : ℕ) (l : ℤ × ℤ)
      → mapped (map_output w o l) p ≡ (if o == p then some l else mapped w p)
  pub state-unmap : (w : World) (o p : ℕ) → state (unmap_output w o) p ≡ state w p
  pub mapped-unmap :
      (w : World) (o p : ℕ) → mapped (unmap_output w o) p ≡ (if o == p then none else mapped w p)

-- The compositor, with the state `B` of its backend. `explicit` has the `ExplicitPosition` of an
-- output's user data.
pub record Compositor (W B : Type 0) : Type 0 where
  pub world : W
  pub explicit : ℕ → Option Bool
  pub heads_all : List ℕ
  pub allow_no_heads : Bool
  pub applying_output_config : Bool
  pub backend : B

-- Nothing that a client sees of the output `p` differs.
abbrev pub Same :
    (d : Desktop) {B : Type 0} → ℕ → Compositor d.World B → Compositor d.World B → Type 0
Same d p s s' =
    (d.state s'.world p ≡ d.state s.world p)
    × (d.mapped s'.world p ≡ d.mapped s.world p)
    × (s'.explicit p ≡ s.explicit p)

-- `backend_realize_head` and `output_adaptive_sync`: a backend changes only the head that it is told
-- to, and not where its position came from.
pub record Backend (d : Desktop) (B : Type 0) : Type 0 where
  pub realize_head : Compositor d.World B → ℕ → HeadChange → Compositor d.World B × Option ℕ
  pub adaptive_sync : Compositor d.World B → ℕ → Option Bool
  pub realize-Same :
      (s : Compositor d.World B) (o p : ℕ) (c : HeadChange)
      → (o == p) ≡ false
      → Same d p s (realize_head s o c).0
  pub realize-explicit :
      (s : Compositor d.World B) (o : ℕ) (c : HeadChange)
      → (realize_head s o c).0.explicit ≡ s.explicit
