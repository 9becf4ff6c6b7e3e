-- ===== src/Outputs.antt =====
-- src/handlers/output_management.rs: the data of an output configuration. An `Output` is the number
-- of its handle. An `f64` is a multiple of 2 ^ -1074, an infinity or no number.
pub mod Validate
mod Near
mod Sound
mod Accepted
pub mod Layer
pub mod Apply
pub mod Frame
mod Restore
mod Revert
mod Atomic
pub mod Commit
mod Applied
mod Kept
mod Overflow
mod Winit
pub mod Plain
mod Examples
mod Faults
mod Refused
use minde.Base.{
  ℕ, suc, ◌+◌, ◌-◌, ◌/◌, ◌%◌, ◌^◌, List, [], ◌∷◌, Option, none, some, Bool, true, false, ◌&&◌, ◌||◌,
  not, ltb, ◌==◌, leb, if◌then◌else◌, ℤ, pos, negsuc, pos_part, neg_part, sub_ℕ, ◌-ℤ◌, leb_ℤ, ◌==ℤ◌,
}

abbrev pub word32 : ℕ
word32 = 4294967296

-- The value of an `i32` that wraps around.
abbrev pub residue_i32 : ℤ → ℕ
residue_i32 (pos n) = n % word32
residue_i32 (negsuc n) = word32 - 1 - n % word32

abbrev pub signed_i32 : ℕ → ℤ
signed_i32 r = if ltb r 2147483648 then pos r else negsuc (word32 - 1 - r)

abbrev pub wrap_i32 : ℤ → ℤ
wrap_i32 z = signed_i32 (residue_i32 z)

-- `i32::abs` without overflow checks: the least number is its own absolute value.
abbrev pub abs_i32 : ℤ → ℤ
abs_i32 (pos n) = pos n
abs_i32 (negsuc n) = wrap_i32 (pos (suc n))

-- smithay's `Mode`.
pub record Mode : Type 0 where
  pub width : ℤ
  pub height : ℤ
  pub refresh : ℤ

abbrev pub same_size : Mode → Mode → Bool
same_size a b = (a.width ==ℤ b.width) && (a.height ==ℤ b.height)

abbrev pub same_mode : Mode → Mode → Bool
same_mode a b = same_size a b && (a.refresh ==ℤ b.refresh)

pub data F64 : Type 0 where
  nan : F64
  infinite : (negative : Bool) → F64
  finite : ℤ → F64

-- `s <= 0.0`.
abbrev pub non_positive : F64 → Bool
non_positive nan = false
non_positive (infinite negative) = negative
non_positive (finite z) = leb_ℤ z (pos 0)

-- `wl_output`'s transform and smithay's, and the conversion between them.
pub data WlTransform : Type 0 where
  normal quarter half three_quarters : WlTransform
  flipped flipped_quarter flipped_half flipped_three_quarters : WlTransform

pub data Transform : Type 0 where
  normal quarter half three_quarters : Transform
  flipped flipped_quarter flipped_half flipped_three_quarters : Transform

unfoldable pub wl_to_transform : WlTransform → Transform
wl_to_transform WlTransform.normal = Transform.normal
wl_to_transform WlTransform.quarter = Transform.quarter
wl_to_transform WlTransform.half = Transform.half
wl_to_transform WlTransform.three_quarters = Transform.three_quarters
wl_to_transform WlTransform.flipped = Transform.flipped
wl_to_transform WlTransform.flipped_quarter = Transform.flipped_quarter
wl_to_transform WlTransform.flipped_half = Transform.flipped_half
wl_to_transform WlTransform.flipped_three_quarters = Transform.flipped_three_quarters

-- smithay's `Scale`, and `to_scale`: an integer where it is exact.
pub data Scale : Type 0 where
  integer : ℤ → Scale
  fractional : F64 → Scale

abbrev pub unit : ℕ
unit = 2 ^ 1074

-- `s as i32`, which saturates, of a whole number of units.
abbrev pub saturate_i32 : ℤ → ℤ
saturate_i32 (pos n) = if ltb n 2147483648 then pos n else pos 2147483647
saturate_i32 (negsuc n) = if ltb n 2147483648 then negsuc n else negsuc 2147483647

abbrev pub whole_units : ℤ → ℤ
whole_units z = sub_ℕ (pos_part z / unit) (neg_part z / unit)

unfoldable pub to_scale : F64 → Scale
to_scale nan = fractional nan
to_scale (infinite negative) = fractional (infinite negative)
to_scale (finite z) =
    if (pos_part z + neg_part z) % unit == 0
    then integer (saturate_i32 (whole_units z))
    else fractional (finite z)

pub record HeadChange : Type 0 where
  pub output : ℕ
  pub enabled : Bool
  pub mode : Option Mode
  pub custom_mode : Option Mode
  pub position : Option (ℤ × ℤ)
  pub scale : Option F64
  pub transform : Option WlTransform
  pub adaptive_sync : Option Bool

-- `HeadChange::new`.
abbrev pub new_change : ℕ → Bool → HeadChange
new_change output enabled = record {
  output = output;
  enabled = enabled;
  mode = none;
  custom_mode = none;
  position = none;
  scale = none;
  transform = none;
  adaptive_sync = none;
}

abbrev pub or_else {ℓ} : {A : Type ℓ} → Option A → Option A → Option A
or_else (some a) o = some a
or_else none o = o

unfoldable pub requested_mode : HeadChange → Option Mode
requested_mode change = or_else change.mode change.custom_mode

pub record HeadFacts : Type 0 where
  pub output : ℕ
  pub enabled : Bool
  pub adaptive_sync : Option Bool

pub record ResolvedChange : Type 0 where
  pub change : HeadChange
  pub mode : Option Mode
  pub was_enabled : Bool

-- The messages of an `OutputConfigError`; those of a backend are numbered.
pub data OutputConfigError : Type 0 where
  unknown_head configured_twice mode_not_advertised custom_mode_not_positive : OutputConfigError
  no_mode_to_enable scale_not_positive sync_not_supported no_enabled_head : OutputConfigError
  backend : ℕ → OutputConfigError

-- What validation reads of an `Output`.
pub record Advertised : Type 0 where
  pub modes : List Mode
  pub preferred_mode : Option Mode
  pub current_mode : Option Mode
