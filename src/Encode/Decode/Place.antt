-- ===== src/Encode/Decode/Place.antt =====
-- Where the hextile decoder of crates/alloyvnc-encode/src/decode.rs stops in a payload.
use mathlib.Core.Path.{subst}
use native.Mathlib.Nat.{suc-mul}
use alloyvnc.Base.{
  ℕ, zero, suc, ◌+◌, ◌-◌, ◌*◌, ◌/◌, ◌%◌, ◌≤◌, min, ◌≡◌, inl, inr, Bool, true, false, ◌||◌,
  Bool-cases, length, arith, ltb, leb,
}
use alloyvnc.Base.Words.{I32, u64_mod}
use alloyvnc.Region.Rect.{Rect}
use alloyvnc.Proto.Wire.{Bytes}
use alloyvnc.Proto.PixelFormat.{PixelFormat, bytes_per_pixel}
use alloyvnc.Encode.Framebuffer.{Framebuffer}
use alloyvnc.Encode.Hextile.{side}
use alloyvnc.Encode.Decode.{
  Decoded, malformed, truncated, decoded, and_then, byte, take_bytes, colour_if, paint_subrect,
  one_subrect, subrects, Tiles, head_has, raw_tile, inked_tile, described_tile, decode_tile,
  decode_across, decode_down, hextile, unpack,
}

-- What is decoded, if something is, has the property.
abbrev Ends {ℓ} : {A : Type ℓ} → (A → Type 0) → Decoded A → Type 0
Ends P malformed = Unit
Ends P (truncated n) = Unit
Ends P (decoded a) = P a

Ends-and_then {ℓ κ} :
    {A : Type ℓ} {B : Type κ} (P : A → Type 0) (Q : B → Type 0) (d : Decoded A) (f : A → Decoded B)
    → Ends P d
    → ((a : A) → P a → Ends Q (f a))
    → Ends Q (and_then d f)
unfolding and_then
Ends-and_then P Q malformed f p g = tt
Ends-and_then P Q (truncated n) f p g = tt
Ends-and_then P Q (decoded a) f p g = g a p

Ends-map {ℓ} :
    {A : Type ℓ} (P Q : A → Type 0) (d : Decoded A) → Ends P d → ((a : A) → P a → Q a) → Ends Q d
Ends-map P Q malformed p g = tt
Ends-map P Q (truncated n) p g = tt
Ends-map P Q (decoded a) p g = g a p

module _ (payload : Bytes) where
  -- A place not before `low`, and not after the end.
  abbrev Here : ℕ → ℕ → Type 0
  Here low at = (low ≤ at) × (at ≤ length payload)

  byte-Ends : (at : ℕ) → Ends (λ r. Here (at + 1) r.1) (byte payload at)
  unfolding byte
  byte-Ends at = elim (Bool-cases (ltb at (length payload))) [
    | inl more ↦ rw more (omega arith, ground (arith, more))
    | inr none_left ↦ rw none_left tt
  ]

  take_bytes-Ends : (n at : ℕ) → Ends (λ r. Here at r.1) (take_bytes payload n at)
  unfolding take_bytes
  take_bytes-Ends n at = elim (Bool-cases (leb u64_mod (at + n))) [
    | inl over ↦ rw over tt
    | inr fits ↦ elim (Bool-cases (leb (at + n) (length payload))) [
      | inl whole ↦ rw (fits, whole) (omega arith, ground (arith, whole))
      | inr short ↦ rw (fits, short) tt
    ]
  ]

  module _ (pf : PixelFormat) where
    colour_if-Ends :
        (given : Bool) (colour : Bytes) (at : ℕ)
        → at ≤ length payload
        → Ends (λ r. Here at r.1) (colour_if pf payload given colour at)
    colour_if-Ends true colour at h =
        Ends-and_then (λ r. Here at r.1) (λ r. Here at r.1)
          (take_bytes payload (bytes_per_pixel pf) at) (λ r. decoded (unpack pf r.0, r.1))
          (take_bytes-Ends (bytes_per_pixel pf) at) (λ r p. p)
    colour_if-Ends false colour at h = (omega arith, h)

    paint_subrect-Ends :
        (fb : Framebuffer) (x y : I32) (width height : ℕ) (colour : Bytes) (position size at : ℕ)
        → at ≤ length payload
        → Ends (λ s. Here at s.1) (paint_subrect fb x y width height colour position size at)
    paint_subrect-Ends fb x y width height colour position size at h =
        elim (Bool-cases (
          ltb width (position / 16 + (size / 16 + 1))
          || ltb height (position % 16 + (size % 16 + 1)))) [
            | inl out ↦ rw out tt
            | inr in_tile ↦ rw in_tile (omega arith, h)
          ]

    one_subrect-Ends :
        (coloured : Bool) (foreground : Bytes) (x y : I32) (width height : ℕ) (s : Framebuffer × ℕ)
        → s.1 ≤ length payload
        → Ends (λ s'. Here s.1 s'.1) (one_subrect pf payload coloured foreground x y width height s)
    one_subrect-Ends coloured foreground x y width height s h =
        Ends-and_then (λ c. Here s.1 c.1) (λ s'. Here s.1 s'.1) _ _
          (colour_if-Ends coloured foreground s.1 h)
          (λ c p.
            Ends-and_then (λ r. Here (c.1 + 1) r.1) (λ s'. Here s.1 s'.1) _ _ (byte-Ends c.1)
              (λ r q.
                Ends-and_then (λ z. Here (r.1 + 1) z.1) (λ s'. Here s.1 s'.1) _ _ (byte-Ends r.1)
                  (λ z k.
                    Ends-map (λ s'. Here z.1 s'.1) (λ s'. Here s.1 s'.1) _
                      (paint_subrect-Ends s.0 x y width height c.0 r.0 z.0 z.1 k.1)
                      (λ s' e. (omega (arith, p.0, q.0, k.0, e.0), e.1)))))

    subrects-Ends :
        (n : ℕ) (coloured : Bool) (foreground : Bytes) (x y : I32) (width height : ℕ)
        (s : Framebuffer × ℕ)
        → s.1 ≤ length payload
        → Ends (λ s'. Here s.1 s'.1) (subrects n pf payload coloured foreground x y width height s)
    unfolding subrects
    subrects-Ends zero coloured foreground x y width height s h = (omega arith, h)
    subrects-Ends (suc n) coloured foreground x y width height s h =
        Ends-and_then (λ s'. Here s.1 s'.1) (λ s'. Here s.1 s'.1) _ _
          (one_subrect-Ends coloured foreground x y width height s h)
          (λ s' p.
            Ends-map (λ u. Here s'.1 u.1) (λ u. Here s.1 u.1) _
              (subrects-Ends n coloured foreground x y width height s' p.1)
              (λ u e. (omega (arith, p.0, e.0), e.1)))

    abbrev Goes : ℕ → Tiles → Type 0
    Goes low t = Here low t.at

    raw_tile-Ends :
        (x y : I32) (width height : ℕ) (t : Tiles)
        → Ends (Goes t.at) (raw_tile pf payload x y width height t)
    raw_tile-Ends x y width height t =
        Ends-and_then (λ r. Here t.at r.1) (Goes t.at) _ _
          (take_bytes-Ends (width * height * bytes_per_pixel pf) t.at) (λ r p. p)

    inked_tile-Ends :
        (head : ℕ) (x y : I32) (width height : ℕ) (t : Tiles)
        → t.at ≤ length payload
        → Ends (Goes t.at) (inked_tile pf payload head x y width height t)
    inked_tile-Ends head x y width height t h = elim (Bool-cases (head_has head 8)) [
      | inr none_there ↦ rw none_there (omega arith, h)
      | inl some_there ↦ rw some_there (
          Ends-and_then (λ c. Here (t.at + 1) c.1) (Goes t.at) _ _ (byte-Ends t.at)
            (λ c p.
              Ends-and_then (λ s. Here c.1 s.1) (Goes t.at) _ _
                (subrects-Ends c.0 (head_has head 16) t.foreground x y width height (t.fb, c.1) p.1)
                (λ s e. (omega (arith, p.0, e.0), e.1))))
    ]

    described_tile-Ends :
        (head : ℕ) (x y : I32) (width height : ℕ) (t : Tiles)
        → t.at ≤ length payload
        → Ends (Goes t.at) (described_tile pf payload head x y width height t)
    described_tile-Ends head x y width height t h =
        Ends-and_then (λ r. Here t.at r.1) (Goes t.at) _ _
          (colour_if-Ends (head_has head 2) t.background t.at h)
          (λ b p.
            Ends-and_then (λ r. Here b.1 r.1) (Goes t.at) _ _
              (colour_if-Ends (head_has head 4) t.foreground b.1 p.1)
              (λ f q.
                Ends-map (Goes f.1) (Goes t.at) _ (inked_tile-Ends head x y width height _ q.1)
                  (λ u e. (omega (arith, p.0, q.0, e.0), e.1))))

    decode_tile-Ends :
        (x y : I32) (width height : ℕ) (t : Tiles)
        → Ends (Goes (t.at + 1)) (decode_tile pf payload x y width height t)
    unfolding decode_tile
    decode_tile-Ends x y width height t =
        Ends-and_then (λ h. Here (t.at + 1) h.1) (Goes (t.at + 1)) _ _ (byte-Ends t.at)
          (λ h p.
            Ends-map (Goes h.1) (Goes (t.at + 1)) _
              (elim (Bool-cases (head_has h.0 1)) [
                | inl sent ↦ rw sent (raw_tile-Ends x y width height (record t { at = h.1 }))
                | inr told ↦
                    rw told (described_tile-Ends h.0 x y width height (record t { at = h.1 }) p.1)
              ])
              (λ u e. (omega (arith, p.0, e.0), e.1)))

    decode_across-Ends :
        (n : ℕ) (rect : Rect) (x y : I32) (height : ℕ) (t : Tiles)
        → t.at ≤ length payload
        → Ends (Goes (t.at + n)) (decode_across n pf payload rect x y height t)
    unfolding decode_across
    decode_across-Ends zero rect x y height t h = (omega arith, h)
    decode_across-Ends (suc n) rect x y height t h =
        Ends-and_then (Goes (t.at + 1)) (Goes (t.at + suc n)) _ _
          (decode_tile-Ends x y (min side (rect.x2 - x)) height t)
          (λ t' p.
            Ends-map (Goes (t'.at + n)) (Goes (t.at + suc n)) _
              (decode_across-Ends n rect (x + side) y height t' p.1)
              (λ u e. (omega (arith, p.0, e.0), e.1)))

    decode_down-Ends :
        (n : ℕ) (rect : Rect) (y : I32) (t : Tiles)
        → t.at ≤ length payload
        → Ends
            (Goes (t.at + n * ((rect.x2 - rect.x1 + (side - 1)) / side)))
            (decode_down n pf payload rect y t)
    unfolding decode_down
    decode_down-Ends zero rect y t h = (omega arith, h)
    decode_down-Ends (suc n) rect y t h =
        let across : ℕ = (rect.x2 - rect.x1 + (side - 1)) / side in
        let step : suc n * across ≡ n * across + across = suc-mul n across in
        Ends-and_then (Goes (t.at + across)) (Goes (t.at + suc n * across)) _ _
          (decode_across-Ends across rect rect.x1 y (min side (rect.y2 - y)) t h)
          (λ t' p.
            Ends-map (Goes (t'.at + n * across)) (Goes (t.at + suc n * across)) _
              (decode_down-Ends n rect (y + side) t' p.1)
              (λ u e. (omega (arith, p.0, e.0, step), e.1)))

    hextile-Ends :
        (rect : Rect) (fb : Framebuffer)
        → Ends
            (λ r.
              Here
                ((rect.y2 - rect.y1 + (side - 1))
                  / side
                  * ((rect.x2 - rect.x1 + (side - 1)) / side))
                r.1)
            (hextile payload rect pf fb)
    unfolding hextile
    hextile-Ends rect fb =
        Ends-and_then
          (Goes
            ((rect.y2 - rect.y1 + (side - 1)) / side * ((rect.x2 - rect.x1 + (side - 1)) / side)))
          _ _ _
          (Ends-map
            (Goes (
              0
              + (rect.y2 - rect.y1 + (side - 1))
                / side
                * ((rect.x2 - rect.x1 + (side - 1)) / side)))
            (Goes
              ((rect.y2 - rect.y1 + (side - 1)) / side * ((rect.x2 - rect.x1 + (side - 1)) / side)))
            _
            (decode_down-Ends ((rect.y2 - rect.y1 + (side - 1)) / side) rect rect.y1 _
              (omega arith))
            (λ t e. (let d = e.0 in omega (arith, d), e.1)))
          (λ t p. p)

-- A payload that is decoded is used from its start up to a place inside it, with at least one
-- byte for each tile of the rectangle.
pub hextile_lem :
    (payload : Bytes) (rect : Rect) (pf : PixelFormat) (fb out : Framebuffer) (used : ℕ)
    → hextile payload rect pf fb ≡ decoded (out, used)
    → ((rect.y2 - rect.y1 + (side - 1)) / side * ((rect.x2 - rect.x1 + (side - 1)) / side) ≤ used)
      × (used ≤ length payload)
hextile_lem payload rect pf fb out used e =
    subst
      (Ends (λ r.
        ((rect.y2 - rect.y1 + (side - 1)) / side * ((rect.x2 - rect.x1 + (side - 1)) / side) ≤ r.1)
        × (r.1 ≤ length payload)))
      e (hextile-Ends payload pf rect fb)
