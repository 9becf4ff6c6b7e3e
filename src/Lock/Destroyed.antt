-- ===== src/Lock/Destroyed.antt =====
-- src/handlers/dispatch.rs: the destruction of a surface leaves the lock itself alone.
use minde.Base.{ℕ, ◌≡◌, refl, inl, inr, List, [], ◌∷◌, if-both}
use minde.Lock.{Clients, Session, say, redraw}
use minde.Lock.Frames.{without_surface, left, forget_surface, Outlived}
use minde.Lock.Guard.{Moved, kept}
use minde.Lock.Ownership.{SessionOwnership, Ownership-say}

pub forget_surface-Moved : (surface : ℕ) (s : Session) → Moved s (forget_surface surface s)
unfolding forget_surface
forget_surface-Moved surface s =
    if-both (Moved s) s.locked
      (say redraw (record s {
        lock_surfaces = without_surface surface s.lock_surfaces;
        keyboard = left surface s.keyboard;
      }))
      s (kept refl (inl refl) refl) (kept refl (inl refl) refl)

pub Outlived-Ownership :
    (c c' : Clients) (s : Session)
    → Outlived c c'
    → SessionOwnership c.destroyed s
    → SessionOwnership c'.destroyed s
Outlived-Ownership c c' s o v = record {
  owner_pending = v.owner_pending;
  told = λ lock f. elim (v.told lock f) [
    | inl p ↦ inl p
    | inr (inl t) ↦ inr (inl t)
    | inr (inr d) ↦ inr (inr (o lock d))
  ];
}

pub forget_surface-Ownership :
    (destroyed : List ℕ) (surface : ℕ) (s : Session)
    → SessionOwnership destroyed s
    → SessionOwnership destroyed (forget_surface surface s)
unfolding forget_surface
forget_surface-Ownership destroyed surface s v =
    if-both (SessionOwnership destroyed) s.locked
      (say redraw (record s {
        lock_surfaces = without_surface surface s.lock_surfaces;
        keyboard = left surface s.keyboard;
      }))
      s
      (Ownership-say destroyed s.session_lock.owner s.session_lock.pending s.messages (redraw ∷ [])
        v)
      v

pub forget_surface_locked :
    (surface : ℕ) (s : Session) → (forget_surface surface s).locked ≡ s.locked
unfolding forget_surface
forget_surface_locked surface s =
    if-both (λ (t : Session). t.locked ≡ s.locked) s.locked
      (say redraw (record s {
        lock_surfaces = without_surface surface s.lock_surfaces;
        keyboard = left surface s.keyboard;
      }))
      s refl refl
