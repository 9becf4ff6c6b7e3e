-- ===== src/Outputs/Validate.antt =====
-- src/handlers/output_management.rs: `validate`.
use minde.Base.{
  ℕ, suc, List, [], ◌∷◌, ◌++◌, Option, none, some, Bool, true, false, not, ◌&&◌, ◌||◌, ◌==◌,
  if◌then◌else◌, ℤ, pos, ◌-ℤ◌, leb_ℤ, Result, ok, err, and_then,
}
use minde.Outputs.{
  Mode, same_size, same_mode, wrap_i32, abs_i32, non_positive, or_else, F64, HeadChange,
  requested_mode, HeadFacts, ResolvedChange, Advertised, OutputConfigError, unknown_head,
  configured_twice, mode_not_advertised, custom_mode_not_positive, no_mode_to_enable,
  scale_not_positive, sync_not_supported, no_enabled_head,
}

-- The release build's difference of two refresh rates.
abbrev pub refresh_difference : Mode → Mode → ℤ
refresh_difference m wanted = abs_i32 (wrap_i32 (m.refresh -ℤ wanted.refresh))

-- `min_by_key`: the first of the least differences.
abbrev pub nearer_mode : Mode → Mode → Option Mode → Option Mode
nearer_mode wanted m none = some m
nearer_mode wanted m (some n) =
    if leb_ℤ (refresh_difference m wanted) (refresh_difference n wanted) then some m else some n

abbrev pub near_mode : Mode → Mode → Bool
near_mode wanted m = same_size m wanted && leb_ℤ (refresh_difference m wanted) (pos 1000)

unfoldable pub nearest_advertised_mode : List Mode → Mode → Option Mode
nearest_advertised_mode [] wanted = none
nearest_advertised_mode (m ∷ modes) wanted =
    let later = nearest_advertised_mode modes wanted in
    if near_mode wanted m then nearer_mode wanted m later else later

unfoldable pub contains_mode : List Mode → Mode → Bool
contains_mode [] m = false
contains_mode (n ∷ modes) m = same_mode n m || contains_mode modes m

abbrev pub unwrap_or {ℓ} : {A : Type ℓ} → Option A → A → A
unwrap_or (some a) d = a
unwrap_or none d = d

-- The mode of an enabled head, from `change.mode`, `change.requested_mode()` and
-- `facts.enabled`.
abbrev pub default_mode : Option Mode → Result (Option Mode) OutputConfigError
default_mode none = err no_mode_to_enable
default_mode (some m) = ok (some m)

unfoldable pub resolve_mode :
    Advertised → Bool → Option Mode → Option Mode → Result (Option Mode) OutputConfigError
resolve_mode head enabled (some m) requested =
    if contains_mode head.modes m then ok (some m) else err mode_not_advertised
resolve_mode head enabled none (some m) =
    if leb_ℤ m.width (pos 0) || leb_ℤ m.height (pos 0)
    then err custom_mode_not_positive
    else ok (some (unwrap_or (nearest_advertised_mode head.modes m) m))
resolve_mode head true none none = ok none
resolve_mode head false none none = default_mode (or_else head.preferred_mode head.current_mode)

abbrev pub bad_scale : Option F64 → Bool
bad_scale none = false
bad_scale (some s) = non_positive s

-- `change.adaptive_sync == Some(true) && facts.adaptive_sync.is_none()`.
abbrev pub bad_sync : Option Bool → Option Bool → Bool
bad_sync (some true) none = true
bad_sync _ _ = false

-- The checks after the mode is resolved.
abbrev pub resolve_rest :
    HeadFacts → HeadChange → Option Mode → Result ResolvedChange OutputConfigError
resolve_rest facts change mode =
    if bad_scale change.scale
    then err scale_not_positive
    else if bad_sync change.adaptive_sync facts.adaptive_sync
    then err sync_not_supported
    else ok (record { change = change; mode = mode; was_enabled = facts.enabled })

unfoldable pub resolve_change :
    Advertised → HeadFacts → HeadChange → Result ResolvedChange OutputConfigError
resolve_change head facts change =
    if change.enabled
    then and_then (resolve_mode head facts.enabled change.mode (requested_mode change))
        (resolve_rest facts change)
    else ok (record { change = change; mode = none; was_enabled = facts.enabled })

unfoldable pub find_facts : List HeadFacts → ℕ → Option HeadFacts
find_facts [] output = none
find_facts (h ∷ heads) output =
    let later = find_facts heads output in if h.output == output then some h else later

unfoldable pub find_resolved : List ResolvedChange → ℕ → Option ResolvedChange
find_resolved [] output = none
find_resolved (r ∷ resolved) output =
    let later = find_resolved resolved output in if r.change.output == output then some r else later

-- One turn of the loop over the changes.
abbrev pub check_new :
    Advertised
    → HeadChange
    → Option HeadFacts
    → Option ResolvedChange
    → Result ResolvedChange OutputConfigError
check_new head change none seen = err unknown_head
check_new head change (some facts) (some r) = err configured_twice
check_new head change (some facts) none = resolve_change head facts change

unfoldable pub check_change :
    (ℕ → Advertised)
    → List HeadFacts
    → List ResolvedChange
    → HeadChange
    → Result ResolvedChange OutputConfigError
check_change outputs heads resolved change =
    check_new (outputs change.output) change (find_facts heads change.output)
      (find_resolved resolved change.output)

unfoldable pub validate_loop :
    (ℕ → Advertised)
    → List HeadFacts
    → List ResolvedChange
    → List HeadChange
    → Result (List ResolvedChange) OutputConfigError
validate_loop outputs heads resolved [] = ok resolved
validate_loop outputs heads resolved (change ∷ changes) =
    and_then (check_change outputs heads resolved change)
      (λ r. validate_loop outputs heads (resolved ++ (r ∷ [])) changes)

abbrev pub enabled_by : Option ResolvedChange → Bool → Bool
enabled_by (some r) enabled = r.change.enabled
enabled_by none enabled = enabled

unfoldable pub enabled_after : List ResolvedChange → List HeadFacts → ℕ
enabled_after resolved [] = 0
enabled_after resolved (h ∷ heads) =
    let rest = enabled_after resolved heads in
    if enabled_by (find_resolved resolved h.output) h.enabled then suc rest else rest

abbrev pub is_empty {ℓ} : {A : Type ℓ} → List A → Bool
is_empty [] = true
is_empty (x ∷ xs) = false

abbrev pub keep_a_head :
    List HeadFacts → Bool → List ResolvedChange → Result (List ResolvedChange) OutputConfigError
keep_a_head heads allow_no_heads resolved =
    if (enabled_after resolved heads == 0) && (not allow_no_heads && not (is_empty heads))
    then err no_enabled_head
    else ok resolved

unfoldable pub validate :
    (ℕ → Advertised)
    → List HeadFacts
    → List HeadChange
    → Bool
    → Result (List ResolvedChange) OutputConfigError
validate outputs heads changes allow_no_heads =
    and_then (validate_loop outputs heads [] changes) (keep_a_head heads allow_no_heads)
