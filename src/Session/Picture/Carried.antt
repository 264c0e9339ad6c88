-- ===== src/Session/Picture/Carried.antt =====
-- What the bytes of an update say to the client that reads them (`build_update` of
-- crates/alloyvnc/src/session.rs).
use Prim.Native.Nat.{suc}
use mathlib.Core.Path.{subst}
use mathlib.Core.List.{append_assoc}
use std.Path.{fun_ext}
use alloyvnc.Base.{
  ℕ, ◌+◌, ◌<◌, ◌≡◌, refl, sym, ap, ◌∙◌, Bool, true, false, ◌||◌, Option, none, some, List, [], ◌∷◌,
  ◌++◌, length, if◌then◌else◌, arith,
}
use alloyvnc.Base.Words.{I32, i32, bits_i32, u16_mod}
use alloyvnc.Region.Rect
use alloyvnc.Region.Rect.{Rect, Move}
use alloyvnc.Region.Bands.{Region, holds}
use alloyvnc.Proto.Wire.{Bytes, be16, be32}
use alloyvnc.Proto.PixelFormat.{PixelFormat}
use alloyvnc.Proto.Server.{write_framebuffer_update_header, write_rect_header}
use alloyvnc.Encode.Convert.{copyrect_encode}
use alloyvnc.Encode.Cursor.{CursorShape}
use alloyvnc.Session.{
  Session, Shared, Encoders, Coder, coder_raw, coder_hextile, coder_zrle, coder_tight, is_some,
}
use alloyvnc.Session.Handle.{as_u16, layout_rect, reason_server, status_ok}
use alloyvnc.Session.Update.{
  rect_header, copy_rects, encode_one, encode_all, encode_rects, all_pieces, cursor_rect,
  cursor_bytes, cursor_due, layout_due, one_if, update_count, rects_of_update, rects_to_send,
  counted, put_update,
}
use alloyvnc.Session.Picture.{Picture, apply_move, replay, paint}

-- The pieces of a rectangle have its points and no others.
abbrev pub IsCut : {State : Type 0} → Encoders State → Type 0
IsCut encoders =
    (r : Rect) (x y : I32) → holds x y (encoders.piece_rects r) ≡ Rect.contains_point r x y

-- The header of a rectangle: its place, its size and the encoding of what follows.
abbrev pub heading : Rect → I32 → Bytes
heading r encoding =
    be16 (as_u16 r.x1)
    ++ (be16 (as_u16 r.y1)
        ++ (be16 (as_u16 (Rect.width r))
            ++ (be16 (as_u16 (Rect.height r)) ++ be32 (bits_i32 encoding))))

-- The corner that the pixels of a CopyRect come from.
abbrev pub origin : Move → Bytes
origin m = be16 (as_u16 m.src_x) ++ be16 (as_u16 m.src_y)

-- So many rectangles, the bytes that are all of them, and what a client that carries them out in
-- their order has before and after. A CopyRect moves pixels that the client has; the bytes that the
-- encoder of the session, as the rectangles before have left it, writes for a rectangle of the
-- picture stand for the pixels of the screen in it; the layout and the pointer change no pixel.
pub data Carries {State Pixel : Type 0} (encoders : Encoders State) (shared : Shared)
    (s : Session State) (pf : PixelFormat) (encoding : I32) (screen : Picture Pixel)
    : Coder State → ℕ → Bytes → Picture Pixel → Picture Pixel → Type 0 where
  ended :
      (c : Coder State) (p : Picture Pixel)
      → Carries encoders shared s pf encoding screen c 0 [] p p
  layout :
      (c : Coder State) (n : ℕ) (rest : Bytes) (p q : Picture Pixel)
      → Carries encoders shared s pf encoding screen c n rest p q
      → Carries encoders shared s pf encoding screen c
          (suc n)
          (layout_rect shared s reason_server status_ok ++ rest)
          p
          q
  pointer :
      (c : Coder State) (n : ℕ) (shape : CursorShape) (bytes rest : Bytes) (p q : Picture Pixel)
      → cursor_rect s shape ≡ some bytes
      → Carries encoders shared s pf encoding screen c n rest p q
      → Carries encoders shared s pf encoding screen c (suc n) (bytes ++ rest) p q
  copied :
      (c : Coder State) (n : ℕ) (m : Move) (rest : Bytes) (p q : Picture Pixel)
      → Carries encoders shared s pf encoding screen c n rest (apply_move m p) q
      → Carries encoders shared s pf encoding screen c
          (suc n)
          (heading m.dst (i32 1) ++ (origin m ++ rest))
          p
          q
  painted :
      (c : Coder State) (n : ℕ) (r : Rect) (rest : Bytes) (p q : Picture Pixel)
      → Carries encoders shared s pf encoding screen
          (encode_one encoders c shared.fb r pf).0
          n
          rest
          (paint screen (r ∷ []) p)
          q
      → Carries encoders shared s pf encoding screen c
          (suc n)
          ((heading r encoding ++ (encode_one encoders c shared.fb r pf).1) ++ rest)
          p
          q

module _ {Pixel : Type 0} (screen : Picture Pixel) where
  paint-same :
      (rs ts : List Rect) (p : Picture Pixel)
      → ((x y : I32) → holds x y rs ≡ holds x y ts)
      → paint screen rs p ≡ paint screen ts p
  paint-same rs ts p h =
      fun_ext (λ x. fun_ext (λ y. ap (λ on. if on then screen x y else p x y) (h x y)))

  paint-cons :
      (r : Rect) (rs : List Rect) (p : Picture Pixel)
      → paint screen rs (paint screen (r ∷ []) p) ≡ paint screen (r ∷ rs) p
  paint-cons r rs p = fun_ext (λ x. fun_ext (λ y. ground arith))

module _ {State : Type 0} (encoders : Encoders State) where
  holds-append :
      (rs ts : List Rect) (x y : I32) → holds x y (rs ++ ts) ≡ (holds x y rs || holds x y ts)
  holds-append [] ts x y = refl
  holds-append (r ∷ rs) ts x y = let rest = holds-append rs ts x y in ground (arith, rest)

  holds-all_pieces :
      (rs : List Rect) (x y : I32)
      → IsCut encoders
      → holds x y (all_pieces encoders rs) ≡ holds x y rs
  unfolding all_pieces
  holds-all_pieces [] x y cut = refl
  holds-all_pieces (r ∷ rs) x y cut =
      let rest = holds-all_pieces rs x y cut in
      holds-append (encoders.piece_rects r) (all_pieces encoders rs) x y
      ∙ (ap (λ b. b || holds x y (all_pieces encoders rs)) (cut r x y)
          ∙ ap (λ b. Rect.contains_point r x y || b) rest)

  holds-encode_rects :
      (c : Coder State) (rs : List Rect) (x y : I32)
      → IsCut encoders
      → holds x y (encode_rects encoders c rs) ≡ holds x y rs
  unfolding encode_rects
  holds-encode_rects coder_raw rs x y cut = refl
  holds-encode_rects (coder_hextile h) rs x y cut = refl
  holds-encode_rects (coder_zrle z) rs x y cut = refl
  holds-encode_rects (coder_tight t) rs x y cut = holds-all_pieces rs x y cut

module _ {State Pixel : Type 0} (encoders : Encoders State) (shared : Shared) (s : Session State)
    (screen : Picture Pixel) where
  -- The rectangles of an update of the session.
  abbrev Rects : Coder State → ℕ → Bytes → Picture Pixel → Picture Pixel → Type 0
  Rects = Carries encoders shared s s.pf s.choice.encoding screen

  -- An update: how many rectangles it has, which a `u16` counts, and these.
  abbrev pub Says : Bytes → Picture Pixel → Picture Pixel → Type 0
  Says out p q =
      (n : ℕ) × (rects : Bytes) × ((n < u16_mod)
        × ((out ≡ 0 ∷ 0 ∷ be16 n ++ rects) × Rects s.coder n rects p q))

  copied_all :
      (c : Coder State) (n : ℕ) (ms : List Move) (rest : Bytes) (p q : Picture Pixel)
      → Rects c n rest (replay ms p) q
      → Rects c (length ms + n) (copy_rects ms ++ rest) p q
  unfolding copy_rects rect_header write_rect_header copyrect_encode
  copied_all c n [] rest p q h = subst (λ k. Rects c k rest p q) (omega arith) h
  copied_all c n (m ∷ ms) rest p q h =
      let front : Bytes = heading m.dst (i32 1) in
      let bytes : (front ++ (origin m ++ copy_rects ms)) ++ rest
          ≡ front ++ (origin m ++ (copy_rects ms ++ rest)) =
        append_assoc front (origin m ++ copy_rects ms) rest
        ∙ ap (λ b. front ++ b) (append_assoc (origin m) (copy_rects ms) rest) in
      let count : suc (length ms + n) ≡ length (m ∷ ms) + n = omega arith in
      subst (λ k. Rects c k (copy_rects (m ∷ ms) ++ rest) p q) count
        (subst (λ b. Rects c (suc (length ms + n)) b p q) (sym bytes)
          (copied c _ m _ p q (copied_all c n ms rest (apply_move m p) q h)))

  painted_all :
      (rs : List Rect) (u : Session State) (p : Picture Pixel)
      → Carries encoders shared s u.pf u.choice.encoding screen u.coder
          (length rs)
          (encode_all encoders shared u rs).1
          p
          (paint screen rs p)
  unfolding encode_all rect_header write_rect_header
  painted_all [] u p = ended u.coder p
  painted_all (r ∷ rs) u p =
      subst
        (λ q.
          Carries encoders shared s u.pf u.choice.encoding screen u.coder (length (r ∷ rs))
            (encode_all encoders shared u (r ∷ rs)).1 p q)
        (paint-cons screen r rs p)
        (painted u.coder _ r _ p _ (painted_all rs _ (paint screen (r ∷ []) p)))

  abbrev unwrapped : Option Bytes → Bytes
  unwrapped none = []
  unwrapped (some bytes) = bytes

  pointed :
      (c : Coder State) (n : ℕ) (due : Option CursorShape) (bytes rest : Bytes)
      (p q : Picture Pixel)
      → cursor_bytes s due ≡ some bytes
      → Rects c n rest p q
      → Rects c (one_if (is_some due) + n) (bytes ++ rest) p q
  pointed c n none bytes rest p q h all =
      subst (λ k. Rects c k (bytes ++ rest) p q) (omega arith)
        (subst (λ b. Rects c n (b ++ rest) p q) (ap unwrapped h) all)
  pointed c n (some shape) bytes rest p q h all =
      subst (λ k. Rects c k (bytes ++ rest) p q) (omega arith)
        (pointer c n shape bytes rest p q h all)

  laid_out :
      (c : Coder State) (n : ℕ) (due : Bool) (rest : Bytes) (p q : Picture Pixel)
      → Rects c n rest p q
      → Rects c
          (one_if due + n)
          ((if due then layout_rect shared s reason_server status_ok else []) ++ rest)
          p
          q
  laid_out c n true rest p q all =
      subst (λ k. Rects c k (layout_rect shared s reason_server status_ok ++ rest) p q)
        (omega arith) (layout c n rest p q all)
  laid_out c n false rest p q all = subst (λ k. Rects c k rest p q) (omega arith) all

  -- The update says what its copies and its damage are.
  pub put_update-Says :
      (moves : List Move) (damage : Region) (bytes : Bytes) (p : Picture Pixel)
      → IsCut encoders
      → update_count encoders shared s moves (rects_of_update encoders shared s damage) < u16_mod
      → cursor_bytes s (cursor_due s) ≡ some bytes
      → Says
          (put_update encoders shared s moves damage bytes).2
          p
          (paint screen (rects_to_send damage) (replay moves p))
  unfolding put_update update_count counted write_framebuffer_update_header
  put_update-Says moves damage bytes p cut fits h =
      let rs : List Rect = rects_of_update encoders shared s damage in
      let all = painted_all rs (counted encoders shared s moves damage) (replay moves p) in
      let same =
        paint-same screen rs (rects_to_send damage) (replay moves p)
          (λ x y. holds-encode_rects encoders s.coder (rects_to_send damage) x y cut) in
      let body : Bytes =
        (encode_all encoders shared (counted encoders shared s moves damage) rs).1 in
      let q : Picture Pixel = paint screen (rects_to_send damage) (replay moves p) in
      let drawn = subst (λ q. Rects s.coder (length rs) body (replay moves p) q) same all in
      (
        _,
        _,
        (
          fits,
          (
            refl,
            laid_out s.coder _ (layout_due s) _ p q (
                pointed s.coder _ (cursor_due s) bytes _ p q h
                  (copied_all s.coder _ moves body p q drawn)),
          ),
        ),
      )
