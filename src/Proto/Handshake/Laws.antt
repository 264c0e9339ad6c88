-- ===== src/Proto/Handshake/Laws.antt =====
-- The handshake is read back from what it writes (crates/alloyvnc-proto/src/handshake.rs).
use alloyvnc.Base.{
  ◌%◌, ◌≤◌, ◌<◌, min, ◌≡◌, refl, ap, false, some, [], ◌∷◌, ◌++◌, length, length-append, take-append,
  take, All, arith, ltb, ◌^◌,
}
use alloyvnc.Base.Words.{u32_mod}
use alloyvnc.Proto.Error.{ok, ◌>>=◌}
use alloyvnc.Proto.Wire.{Bytes, be32, be16_lem, be32_lem}
use alloyvnc.Proto.Text.{as_bytes}
use alloyvnc.Proto.Text.Utf8.{IsScalar, from_utf8_lossy-as_bytes}
use alloyvnc.Proto.PixelFormat
use alloyvnc.Proto.PixelFormat.{PixelFormat}
use alloyvnc.Proto.PixelFormat.Laws.{InRange, parse-write}
use alloyvnc.Proto.Handshake.{
  Flow, v33, v37, v38, for_version, parse_version, version_bytes, ServerInit, max_name, name_bytes,
  write, parse, parse_name,
}

-- The flow that a side's version bytes announce is the flow that the other side settles on.
pub for_version-parse_version :
    (f : Flow) → (parse_version (version_bytes f) >>= λ v. for_version v.0 v.1) ≡ ok f
unfolding parse_version version_bytes for_version
for_version-parse_version v33 = refl
for_version-parse_version v37 = refl
for_version-parse_version v38 = refl

-- The numbers of a ServerInit fit their fields, and its name is a text no longer than the limit.
pub record Sendable (s : ServerInit) : Type 0 where
  pub wide : s.width < 2 ^ 16
  pub high : s.height < 2 ^ 16
  pub pixels : InRange s.pixel_format
  pub short : length (as_bytes s.name) ≤ max_name
  pub scalars : All IsScalar s.name

take-length : (bs : Bytes) → take (length bs) bs ≡ bs
take-length [] = refl
take-length (b ∷ bs) = ap (λ r. b ∷ r) (take-length bs)

whole_name : (s : ServerInit) → Sendable s → name_bytes s ≡ as_bytes s.name
unfolding name_bytes
whole_name s h =
    let e : min (length (as_bytes s.name)) max_name ≡ length (as_bytes s.name) =
      ground (arith, h.short) in
    rw (e, take-length (as_bytes s.name))

-- A ServerInit whose numbers fit and whose name is within the limit is read back whole, using up
-- exactly its own bytes, whatever follows.
pub init-write :
    (s : ServerInit) (rest : Bytes)
    → Sendable s
    → parse (write s ++ rest) ≡ ok (some (s, length (write s)))
unfolding parse write parse_name PixelFormat.write
init-write s rest h =
    let len : length (as_bytes s.name) % u32_mod ≡ length (as_bytes s.name) =
      omega (arith, h.short) in
    let within : ltb max_name (length (as_bytes s.name)) ≡ false = ground (arith, h.short) in
    rw
      (
        whole_name s h,
        len,
        (parse-write s.pixel_format (be32 (length (as_bytes s.name)) ++ (as_bytes s.name ++ rest))
            h.pixels).0,
        be16_lem s.width h.wide,
        be16_lem s.height h.high,
        be32_lem (length (as_bytes s.name)) (omega (arith, h.short)),
        within,
        take-append (as_bytes s.name) rest,
        from_utf8_lossy-as_bytes s.name h.scalars,
        length-append (as_bytes s.name) rest,
      )
      (ground arith)
