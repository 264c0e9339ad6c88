-- ===== src/Proto/Encoding.antt =====
-- crates/alloyvnc-proto/src/encoding.rs: encoding numbers, as `i32` (Base.Words).
use Prim.Native.String.{String}
use alloyvnc.Base.{
  List, [], ◌∷◌, false, All, ◌≢◌, ◌==◌, refl, if◌then◌else◌, ℕ, ◌+◌, ◌-◌, ◌≤◌, ◌≡◌, ◌&&◌, Option,
  none, some, arith, leb, if◌then◌else◌,
}
use alloyvnc.Base.Words.{I32, i32, neg32, add_i32}

abbrev pub raw : I32
raw = i32 0

abbrev pub copy_rect : I32
copy_rect = i32 1

abbrev pub rre : I32
rre = i32 2

abbrev pub hextile : I32
hextile = i32 5

abbrev pub zlib : I32
zlib = i32 6

abbrev pub tight : I32
tight = i32 7

abbrev pub trle : I32
trle = i32 15

abbrev pub zrle : I32
zrle = i32 16

abbrev pub jpeg : I32
jpeg = i32 21

abbrev pub open_h264 : I32
open_h264 = i32 50

abbrev pub pseudo_cursor : I32
pseudo_cursor = neg32 239

abbrev pub pseudo_desktop_size : I32
pseudo_desktop_size = neg32 223

abbrev pub pseudo_last_rect : I32
pseudo_last_rect = neg32 224

abbrev pub pseudo_pointer_pos : I32
pseudo_pointer_pos = neg32 232

abbrev pub pseudo_qemu_extended_key : I32
pseudo_qemu_extended_key = neg32 258

abbrev pub pseudo_tight_png : I32
pseudo_tight_png = neg32 260

abbrev pub pseudo_desktop_name : I32
pseudo_desktop_name = neg32 307

abbrev pub pseudo_extended_desktop_size : I32
pseudo_extended_desktop_size = neg32 308

abbrev pub pseudo_xvp : I32
pseudo_xvp = neg32 309

abbrev pub pseudo_fence : I32
pseudo_fence = neg32 312

abbrev pub pseudo_continuous_updates : I32
pseudo_continuous_updates = neg32 313

abbrev pub pseudo_cursor_with_alpha : I32
pseudo_cursor_with_alpha = neg32 314

abbrev pub pseudo_extended_mouse_buttons : I32
pseudo_extended_mouse_buttons = neg32 316

abbrev pub pseudo_extended_clipboard : I32
pseudo_extended_clipboard = neg32 1_063_131_698

abbrev pub pseudo_vmware_cursor : I32
pseudo_vmware_cursor = i32 0x574d_5664

abbrev pub tight_quality_base : I32
tight_quality_base = neg32 32

abbrev pub tight_compress_base : I32
tight_compress_base = neg32 256

-- `(encoding - base) as u8`
unfoldable pub level_of : I32 → I32 → Option ℕ
level_of encoding base =
    if leb base encoding && leb encoding (add_i32 base (i32 9))
    then some (encoding - base)
    else none

unfoldable pub tight_quality : I32 → Option ℕ
unfolding level_of
tight_quality encoding = level_of encoding tight_quality_base

unfoldable pub tight_compression : I32 → Option ℕ
unfolding level_of
tight_compression encoding = level_of encoding tight_compress_base

-- The arms of `name` with a fixed encoding.
abbrev pub fixed_names : List (I32 × String)
fixed_names =
    (raw, "Raw")
    ∷ (copy_rect, "CopyRect")
    ∷ (rre, "RRE")
    ∷ (hextile, "Hextile")
    ∷ (zlib, "Zlib")
    ∷ (tight, "Tight")
    ∷ (trle, "TRLE")
    ∷ (zrle, "ZRLE")
    ∷ (jpeg, "JPEG")
    ∷ (open_h264, "OpenH264")
    ∷ (pseudo_cursor, "Cursor")
    ∷ (pseudo_desktop_size, "DesktopSize")
    ∷ (pseudo_last_rect, "LastRect")
    ∷ (pseudo_pointer_pos, "PointerPos")
    ∷ (pseudo_qemu_extended_key, "QemuExtendedKey")
    ∷ (pseudo_tight_png, "TightPNG")
    ∷ (pseudo_desktop_name, "DesktopName")
    ∷ (pseudo_extended_desktop_size, "ExtendedDesktopSize")
    ∷ (pseudo_xvp, "xvp")
    ∷ (pseudo_fence, "Fence")
    ∷ (pseudo_continuous_updates, "ContinuousUpdates")
    ∷ (pseudo_cursor_with_alpha, "CursorWithAlpha")
    ∷ (pseudo_extended_mouse_buttons, "ExtendedMouseButtons")
    ∷ (pseudo_extended_clipboard, "ExtendedClipboard")
    ∷ (pseudo_vmware_cursor, "VMwareCursor")
    ∷ []

-- The arms with a guard, and the last one.
unfoldable pub level_name : I32 → String
unfolding tight_quality tight_compression
level_name encoding = elim (tight_quality encoding) [
  | some level ↦ "TightQuality"
  | none ↦ elim (tight_compression encoding) [ some level ↦ "TightCompression" | none ↦ "?" ]
]

unfoldable pub name_among : List (I32 × String) → I32 → String
unfolding level_name
name_among [] encoding = level_name encoding
name_among ((number, text) ∷ table) encoding =
    let other = name_among table encoding in if encoding == number then text else other

unfoldable pub name : I32 → String
unfolding name_among
name encoding = name_among fixed_names encoding

-- The ten quality levels and the ten compression levels are the ten numbers from each base on;
-- levels are at most 9, and no number is a level of both.
pub levels :
    (encoding : I32) (level : ℕ)
    → ((tight_quality encoding ≡ some level)
        → (encoding ≡ tight_quality_base + level) × (level ≤ 9))
      × ((tight_compression encoding ≡ some level)
          → (encoding ≡ tight_compress_base + level)
            × (level ≤ 9)
            × (tight_quality encoding ≡ none))
      × (level ≤ 9
          → (tight_quality (tight_quality_base + level) ≡ some level)
            × (tight_compression (tight_compress_base + level) ≡ some level))
unfolding tight_quality tight_compression
levels encoding level = (λ h. ground arith, λ h. ground arith, λ h. ground arith)

name_among-level_name :
    (table : List (I32 × String)) (encoding : I32)
    → All (λ entry. encoding ≢ entry.0) table
    → name_among table encoding ≡ level_name encoding
unfolding name_among
name_among-level_name [] encoding h = refl
name_among-level_name (entry ∷ table) encoding h =
    let other : encoding == entry.0 ≡ false = ground arith in
    rw other (name_among-level_name table encoding h.1)

-- No fixed encoding hides a level: every quality level has the one name, and every compression
-- level the other.
pub name_lem :
    (encoding : I32) (level : ℕ)
    → ((tight_quality encoding ≡ some level) → name encoding ≡ "TightQuality")
      × ((tight_compression encoding ≡ some level) → name encoding ≡ "TightCompression")
unfolding name level_name
name_lem encoding level = (
  λ h.
      let within = (levels encoding level).0 h in
      rw (name_among-level_name fixed_names encoding (omega (arith, within)), level_name, h),
  λ h.
      let within = (levels encoding level).1 h in
      rw (
        name_among-level_name fixed_names encoding (omega (arith, within)),
        level_name,
        within.2,
        h,
      ),
)
