-- ===== src/Proto/Server/Laws.antt =====
-- A screen list is read back from its rectangle (crates/alloyvnc-proto/src/msg.rs).
use alloyvnc.Base.{
  ◌*◌, ◌%◌, ◌^◌, ◌≤◌, ◌<◌, ◌≡◌, refl, false, some, List, [], ◌∷◌, ◌++◌, length, length-append,
  take-append, take, All, arith, ltb,
}
use alloyvnc.Base.Words.{u8_mod}
use alloyvnc.Proto.Error.{ok}
use alloyvnc.Proto.Wire.{Bytes, be16_lem, be32_lem}
use alloyvnc.Proto.Message.{Screen, max_screens}
use alloyvnc.Proto.Server.{
  screen_bytes, screen_list, write_extended_desktop_size, screens_of, parse_extended_desktop_size,
}

-- Every number of a screen fits its field.
pub record IsScreen (s : Screen) : Type 0 where
  pub id : s.id < 2 ^ 32
  pub x : s.x < 2 ^ 16
  pub y : s.y < 2 ^ 16
  pub width : s.width < 2 ^ 16
  pub height : s.height < 2 ^ 16
  pub flags : s.flags < 2 ^ 32

length-screen_list : (screens : List Screen) → length (screen_list screens) ≡ length screens * 16
unfolding screen_list screen_bytes
length-screen_list [] = omega arith
length-screen_list (s ∷ screens) = omega (arith, length-screen_list screens)

screens_of-screen_list :
    (screens : List Screen) → All IsScreen screens → screens_of (screen_list screens) ≡ screens
unfolding screens_of screen_list screen_bytes
screens_of-screen_list [] h = refl
screens_of-screen_list (s ∷ screens) h = rw (
  be32_lem s.id h.0.id,
  be16_lem s.x h.0.x,
  be16_lem s.y h.0.y,
  be16_lem s.width h.0.width,
  be16_lem s.height h.0.height,
  be32_lem s.flags h.0.flags,
  screens_of-screen_list screens h.1,
)

-- A list of no more screens than the parser takes, with its numbers in range, is read back whole
-- from its bytes, using up exactly these, whatever follows.
pub parse-write_extended_desktop_size :
    (screens : List Screen) (rest : Bytes)
    → length screens ≤ max_screens
    → All IsScreen screens
    → parse_extended_desktop_size (write_extended_desktop_size screens ++ rest)
      ≡ ok (some (screens, length (write_extended_desktop_size screens)))
unfolding parse_extended_desktop_size write_extended_desktop_size
parse-write_extended_desktop_size screens rest few h =
    let small : length screens % u8_mod ≡ length screens = omega arith in
    let within : ltb max_screens (length screens) ≡ false = ground arith in
    let whole : take (length screens * 16) (screen_list screens ++ rest) ≡ screen_list screens =
      rw (← length-screen_list screens) (take-append (screen_list screens) rest) in
    rw (small, within, whole, screens_of-screen_list screens h)
      (ground (arith, length-append (screen_list screens) rest, length-screen_list screens))
