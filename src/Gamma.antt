-- ===== src/Gamma.antt =====
-- src/handlers/gamma_control.rs, and `gamma_info_for_output` of src/udev.rs. A ramp is a list of
-- 16-bit numbers, and a client's control, an output and a CRTC are numbers.
mod Ramp
mod Restoring
mod Second
mod Examples
use minde.Base.{
  ℕ, ◌+◌, ◌*◌, ◌≡◌, List, [], ◌∷◌, Option, none, some, Bool, true, false, not, ◌==◌, if◌then◌else◌,
  length, take, drop,
}

abbrev pub Ramps : Type 0
Ramps = List ℕ × List ℕ × List ℕ

-- `u16::from_ne_bytes` on a little-endian machine, over `chunks_exact(2)`.
unfoldable pub words : List ℕ → List ℕ
words [] = []
words (a ∷ []) = []
words (a ∷ b ∷ bytes) = (a + 256 * b) ∷ words bytes

abbrev pub ramp : List ℕ → ℕ → ℕ → List ℕ
ramp bytes size channel = words (take (size * 2) (drop (channel * (size * 2)) bytes))

unfoldable pub parse_ramps : List ℕ → ℕ → Option Ramps
unfolding words
parse_ramps bytes size =
    if not (length bytes == size * 3 * 2)
    then none
    else some (ramp bytes size 0, ramp bytes size 1, ramp bytes size 2)

-- The CRTCs' gamma in the drm crate: ramps that were read and are written back are read again.
pub record Drm : Type 1 where
  pub Device : Type 0
  pub gamma_length : Device → ℕ → Option ℕ
  pub get_gamma : Device → ℕ → ℕ → Option Ramps
  pub set_gamma : Device → ℕ → Ramps → Device × Bool
  pub get-set :
      (old d : Device) (crtc size : ℕ) (r : Ramps)
      → get_gamma old crtc size ≡ some r
      → (set_gamma d crtc r).1 ≡ true
      → get_gamma (set_gamma d crtc r).0 crtc size ≡ some r

pub record GammaControlEntry : Type 0 where
  pub control : ℕ
  pub crtc : ℕ
  pub size : ℕ
  pub original : Ramps

-- A head of the udev backend, with the CRTC of its surface.
pub record GammaHead : Type 0 where
  pub output : ℕ
  pub surface : Option ℕ

-- `user_data` has the output in the `GammaControlUserData` of each control that is alive.
pub record GammaState (D : Type 0) : Type 0 where
  pub device : D
  pub heads : List GammaHead
  pub gamma_controls : ℕ → Option GammaControlEntry
  pub user_data : ℕ → Option ℕ

-- What a client is told.
pub data GammaEvent : Type 0 where
  failed invalid_gamma : GammaEvent
  gamma_size : ℕ → GammaEvent

-- The file of a `set_gamma`: one that cannot seek, one whose read fails, or its bytes.
pub data GammaFile : Type 0 where
  unseekable : GammaFile
  unreadable : ℕ → GammaFile
  readable : List ℕ → GammaFile

unfoldable pub read_table : ℕ → GammaFile → Option (List ℕ)
read_table expected unseekable = none
read_table expected (unreadable len) = if len == expected then none else some []
read_table expected (readable bytes) = if length bytes == expected then some bytes else some []

abbrev pub set_at {ℓ} : {A : Type ℓ} → (ℕ → A) → ℕ → A → ℕ → A
set_at f i x j = if i == j then x else f j

module _ (drm : Drm) where
  -- The state after a write of the original ramps.
  abbrev pub restore_entry :
      GammaState drm.Device → ℕ → Option GammaControlEntry → GammaState drm.Device
  restore_entry s output none = s
  restore_entry s output (some e) = record s {
    device = (drm.set_gamma s.device e.crtc e.original).0;
    gamma_controls = set_at s.gamma_controls output none;
  }

  unfoldable pub finish_gamma_control : GammaState drm.Device → ℕ → GammaState drm.Device
  finish_gamma_control s output = restore_entry s output (s.gamma_controls output)

  -- With the controls that are told `failed`.
  abbrev pub void_entry :
      GammaState drm.Device → ℕ → Option GammaControlEntry → GammaState drm.Device × List ℕ
  void_entry s output none = (s, [])
  void_entry s output (some e) =
      (record s { gamma_controls = set_at s.gamma_controls output none }, e.control ∷ [])

  unfoldable pub gamma_output_removed : GammaState drm.Device → ℕ → GammaState drm.Device × List ℕ
  gamma_output_removed s output = void_entry s output (s.gamma_controls output)

  abbrev pub info_of : drm.Device → Option ℕ → Option (ℕ × ℕ)
  info_of d none = none
  info_of d (some crtc) = elim (drm.gamma_length d crtc) [ none ↦ none | some n ↦ some (crtc, n) ]

  unfoldable pub gamma_info_for_output : drm.Device → List GammaHead → ℕ → Option (ℕ × ℕ)
  gamma_info_for_output d [] output = none
  gamma_info_for_output d (h ∷ heads) output =
      let later = gamma_info_for_output d heads output in
      if h.output == output then info_of d h.surface else later

  abbrev pub insert_entry :
      GammaState drm.Device → ℕ → ℕ → ℕ → ℕ → Option Ramps → GammaState drm.Device × List GammaEvent
  insert_entry s output control crtc size none = (s, failed ∷ [])
  insert_entry s output control crtc size (some ramps) = (
    record s {
      gamma_controls =
          set_at s.gamma_controls output
            (some (record { control = control; crtc = crtc; size = size; original = ramps }));
    },
    gamma_size size ∷ [],
  )

  abbrev pub create_with :
      GammaState drm.Device
      → ℕ
      → ℕ
      → Option GammaControlEntry
      → Option (ℕ × ℕ)
      → GammaState drm.Device × List GammaEvent
  create_with s output control (some e) info = (s, failed ∷ [])
  create_with s output control none none = (s, failed ∷ [])
  create_with s output control none (some (crtc, size)) =
      if size == 0
      then (s, failed ∷ [])
      else insert_entry s output control crtc size (drm.get_gamma s.device crtc size)

  abbrev pub with_data : GammaState drm.Device → ℕ → Option ℕ → GammaState drm.Device
  with_data s control output = record s { user_data = set_at s.user_data control output }

  -- The control is initialised with its user data, whether or not it fails then.
  unfoldable pub create_gamma_control :
      GammaState drm.Device → Option ℕ → ℕ → GammaState drm.Device × List GammaEvent
  create_gamma_control s none control = (with_data s control none, failed ∷ [])
  create_gamma_control s (some output) control =
      create_with (with_data s control (some output)) output control (s.gamma_controls output)
        (gamma_info_for_output s.device s.heads output)

  abbrev pub write_ramps :
      GammaState drm.Device
      → ℕ
      → GammaControlEntry
      → Option Ramps
      → GammaState drm.Device × List GammaEvent
  write_ramps s output e none = (s, invalid_gamma ∷ [])
  write_ramps s output e (some ramps) =
      let (device, written) = drm.set_gamma s.device e.crtc ramps in
      let s' = record s { device = device } in
      if written then (s', []) else (finish_gamma_control s' output, failed ∷ [])

  abbrev pub write_table :
      GammaState drm.Device
      → ℕ
      → GammaControlEntry
      → Option (List ℕ)
      → GammaState drm.Device × List GammaEvent
  write_table s output e none = (finish_gamma_control s output, failed ∷ [])
  write_table s output e (some bytes) = write_ramps s output e (parse_ramps bytes e.size)

  abbrev pub write_entry :
      GammaState drm.Device
      → ℕ
      → GammaFile
      → Option GammaControlEntry
      → GammaState drm.Device × List GammaEvent
  write_entry s output file none = (s, [])
  write_entry s output file (some e) = write_table s output e (read_table (e.size * 3 * 2) file)

  abbrev pub request_for :
      GammaState drm.Device → Option ℕ → GammaFile → GammaState drm.Device × List GammaEvent
  request_for s none file = (s, [])
  request_for s (some output) file = write_entry s output file (s.gamma_controls output)

  -- `SetGamma` of a control.
  unfoldable pub request_set_gamma :
      GammaState drm.Device → ℕ → GammaFile → GammaState drm.Device × List GammaEvent
  request_set_gamma s control file = request_for s (s.user_data control) file

  abbrev pub destroyed_for : GammaState drm.Device → Option ℕ → GammaState drm.Device
  destroyed_for s none = s
  destroyed_for s (some output) = finish_gamma_control s output

  -- `destroyed`, after which the user data are gone.
  unfoldable pub control_destroyed : GammaState drm.Device → ℕ → GammaState drm.Device
  control_destroyed s control = with_data (destroyed_for s (s.user_data control)) control none
