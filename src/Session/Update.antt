-- ===== src/Session/Update.antt =====
-- `build_update` and `send_next` of crates/alloyvnc/src/session.rs: one FramebufferUpdate, and what
-- goes to the writer.
use alloyvnc.Base.{
  ℕ, ◌+◌, ◌-◌, ◌%◌, Bool, true, false, ◌&&◌, Option, none, some, List, [], ◌∷◌, ◌++◌, length, ltb,
  ◌==◌, if◌then◌else◌,
}
use alloyvnc.Base.Words.{I32, bits_i32, u16_mod, add64}
use alloyvnc.Region.Rect
use alloyvnc.Region.Rect.{Rect, Move}
use alloyvnc.Region.Bands
use alloyvnc.Region.Bands.{Region}
use alloyvnc.Proto.Wire.{Bytes}
use alloyvnc.Proto.PixelFormat.{PixelFormat}
use alloyvnc.Proto.Encoding
use alloyvnc.Proto.Server.{write_framebuffer_update_header, write_rect_header}
use alloyvnc.Encode.Framebuffer.{Framebuffer}
use alloyvnc.Encode.Convert.{raw_encode, copyrect_encode}
use alloyvnc.Encode.Cursor.{CursorShape, encode_cursor, encode_cursor_with_alpha}
use alloyvnc.Session.{
  Session, Shared, Encoders, Coder, coder_raw, coder_hextile, coder_zrle, coder_tight, Spent,
  Counters, Served, served, stopped, cannot_follow, rectangle_count, panicked, supports,
  cursor_encoding, resize_encoding, is_some,
}
use alloyvnc.Session.Handle.{layout_rect, reason_server, status_ok, as_u16}

-- The copies that lie in the area, and the others.
unfoldable pub sendable : Rect → List Move → List Move
sendable area [] = []
sendable area (m ∷ ms) =
    let rest = sendable area ms in if Rect.contains area m.dst then m ∷ rest else rest

-- The copies that do not become damage.
unfoldable pub keep_for_later : Rect → List Move → Region → Region
keep_for_later area [] pending = pending
keep_for_later area (m ∷ ms) pending =
    let same = keep_for_later area ms pending in
    let more = keep_for_later area ms (Bands.add pending m.dst) in
    if Rect.contains area m.dst then same else more

-- A region past what one update can carry is sent as its bounds.
unfoldable pub rects_to_send : Region → List Rect
rects_to_send damage =
    if ltb 60_000 (Bands.len damage) then Bands.bounds damage ∷ [] else damage.rects

unfoldable pub all_pieces : {State : Type 0} → Encoders State → List Rect → List Rect
all_pieces encoders [] = []
all_pieces encoders (r ∷ rs) = encoders.piece_rects r ++ all_pieces encoders rs

unfoldable pub encode_rects :
    {State : Type 0} → Encoders State → Coder State → List Rect → List Rect
unfolding all_pieces
encode_rects encoders (coder_tight t) rects = all_pieces encoders rects
encode_rects encoders _ rects = rects

abbrev pub no_spent : Spent
no_spent = record { fill = 0; palette = 0; jpeg = 0; copy = 0 }

abbrev pub add_spent : Spent → Spent → Spent
add_spent a b = record {
  fill = add64 a.fill b.fill;
  palette = add64 a.palette b.palette;
  jpeg = add64 a.jpeg b.jpeg;
  copy = add64 a.copy b.copy;
}

unfoldable pub rect_header : Rect → ℕ → Bytes
rect_header r encoding =
    write_rect_header (as_u16 r.x1) (as_u16 r.y1) (as_u16 (Rect.width r)) (as_u16 (Rect.height r))
      encoding

unfoldable pub copy_rects : List Move → Bytes
unfolding rect_header
copy_rects [] = []
copy_rects (m ∷ ms) =
    rect_header m.dst Encoding.copy_rect
    ++ (copyrect_encode (as_u16 m.src_x) (as_u16 m.src_y) ++ copy_rects ms)

-- One rectangle by whichever encoder is in use.
unfoldable pub encode_one :
    {State : Type 0}
    → Encoders State
    → Coder State
    → Framebuffer
    → Rect
    → PixelFormat
    → Coder State × Bytes × Spent
encode_one encoders coder_raw fb r pf = (coder_raw, raw_encode fb r pf, no_spent)
encode_one encoders (coder_hextile h) fb r pf =
    let done = encoders.encode_hextile h fb r pf in (coder_hextile done.0, done.1, no_spent)
encode_one encoders (coder_zrle z) fb r pf =
    let done = encoders.encode_zrle z fb r pf in (coder_zrle done.0, done.1, no_spent)
encode_one encoders (coder_tight t) fb r pf =
    let done = encoders.encode_tight t fb r pf in (coder_tight done.0, done.1, done.2)

-- The counter that the bytes of a rectangle go to.
unfoldable pub count_bytes : ℕ → ℕ → Counters → Counters
count_bytes encoding bytes c =
    if encoding == Encoding.tight
    then record c { bytes_tight = add64 c.bytes_tight bytes }
    else if encoding == Encoding.zrle
    then record c { bytes_zrle = add64 c.bytes_zrle bytes }
    else if encoding == Encoding.hextile
    then record c { bytes_hextile = add64 c.bytes_hextile bytes }
    else record c { bytes_raw = add64 c.bytes_raw bytes }

abbrev pub one_if : Bool → ℕ
one_if true = 1
one_if false = 0

module _ {State : Type 0} where
  -- The pointer's rectangle; `None` is a panic.
  unfoldable pub cursor_rect : Session State → CursorShape → Option Bytes
  unfolding cursor_encoding
  cursor_rect s shape =
      let head : ℕ → Bytes = λ encoding.
        write_rect_header (shape.hot_x % u16_mod) (shape.hot_y % u16_mod) (shape.width % u16_mod)
          (shape.height % u16_mod) encoding in
      if supports s Encoding.pseudo_cursor_with_alpha
      then some (head Encoding.pseudo_cursor_with_alpha ++ encode_cursor_with_alpha shape)
      else elim (encode_cursor shape s.pf) [
        | none ↦ none
        | some bytes ↦ some (head Encoding.pseudo_cursor ++ bytes)
      ]

  abbrev pub cursor_bytes : Session State → Option CursorShape → Option Bytes
  cursor_bytes s none = some []
  cursor_bytes s (some shape) = cursor_rect s shape

  -- The pointer that goes out, if the client takes one.
  abbrev pub cursor_due : Session State → Option CursorShape
  cursor_due s = if is_some (cursor_encoding s) then s.cursor_pending else none

  abbrev pub layout_due : Session State → Bool
  layout_due s = s.layout_pending && supports s Encoding.pseudo_extended_desktop_size

module _ {State : Type 0} (encoders : Encoders State) (shared : Shared) where
  -- `for r in &encode_rects`: the session with its encoder and counters, and the bytes.
  unfoldable pub encode_all : Session State → List Rect → Session State × Bytes
  unfolding encode_one rect_header count_bytes
  encode_all s [] = (s, [])
  encode_all s (r ∷ rs) =
      let one = encode_one encoders s.coder shared.fb r s.pf in
      let body : Bytes = rect_header r s.choice.encoding ++ one.1 in
      let counted : Counters = count_bytes s.choice.encoding (length body) s.counters in
      let s' : Session State = record s {
        coder = one.0;
        counters = record counted { spent = add_spent counted.spent one.2 };
      } in
      let rest = encode_all s' rs in (rest.0, body ++ rest.1)

  -- A resize goes out on its own, by the encoding that the client takes it in.
  unfoldable pub resize_by :
      Session State → Rect → Option I32 → Served (Bool × Session State × Bytes)
  resize_by s bounds none = stopped cannot_follow
  resize_by s bounds (some enc) =
      let size : ℕ × ℕ = (bits_i32 (Rect.width bounds), bits_i32 (Rect.height bounds)) in
      let sized : Session State = record s { client_size = size } in
      let rect : Bytes =
        if enc == Encoding.pseudo_extended_desktop_size
        then layout_rect shared sized reason_server status_ok
        else write_rect_header 0 0 (size.0 % u16_mod) (size.1 % u16_mod)
            Encoding.pseudo_desktop_size in
      served (
        true,
        record sized {
          layout_pending = false;
          pending = Bands.from_rect bounds;
          copies = [];
          requested = none;
          counters = record s.counters {
            updates = add64 s.counters.updates 1;
            rects = add64 s.counters.rects 1;
          };
        },
        write_framebuffer_update_header 1 ++ rect,
      )

  unfoldable pub resize_update : Session State → Rect → Served (Bool × Session State × Bytes)
  unfolding resize_by
  resize_update s bounds = resize_by s bounds (resize_encoding s)

  -- The rectangles of an update: the layout, the pointer, the copies, and the encoded ones.
  unfoldable pub update_count : Session State → List Move → List Rect → ℕ
  update_count s moves rects =
      one_if (layout_due s) + (one_if (is_some (cursor_due s)) + (length moves + length rects))

  abbrev pub rects_of_update : Session State → Region → List Rect
  rects_of_update s damage = encode_rects encoders s.coder (rects_to_send damage)

  -- The session after the layout, the pointer and the copies, before the encoded rectangles.
  unfoldable pub counted : Session State → List Move → Region → Session State
  counted s moves damage = record s {
    layout_pending = if layout_due s then false else s.layout_pending;
    cursor_pending = if is_some (cursor_encoding s) then none else s.cursor_pending;
    requested = none;
    pending = Bands.subtract s.pending damage;
    counters = record s.counters {
      updates = add64 s.counters.updates 1;
      rects = add64 s.counters.rects (update_count s moves (rects_of_update s damage));
      cursor_rects = add64 s.counters.cursor_rects (one_if (is_some (cursor_due s)));
      copy_rects = add64 s.counters.copy_rects (length moves);
      bytes_copy_rect = add64 s.counters.bytes_copy_rect (length (copy_rects moves));
    };
  }

  unfoldable pub put_update :
      Session State → List Move → Region → Bytes → Bool × Session State × Bytes
  unfolding encode_all counted
  put_update s moves damage pointer =
      let rects : List Rect = rects_of_update s damage in
      let layout : Bytes =
        if layout_due s then layout_rect shared s reason_server status_ok else [] in
      let done = encode_all (counted s moves damage) rects in
      (
        true,
        done.0,
        write_framebuffer_update_header (update_count s moves rects)
            ++ (layout ++ (pointer ++ (copy_rects moves ++ done.1))),
      )

  -- The update once it is known what goes into it: `moves` as copies, and the damage.
  unfoldable pub write_update :
      Session State → List Move → Region → Served (Bool × Session State × Bytes)
  unfolding update_count put_update encode_rects
  write_update s moves damage =
      if ltb (u16_mod - 1) (update_count s moves (rects_of_update s damage))
      then stopped rectangle_count
      else elim (cursor_bytes s (cursor_due s)) [
        | none ↦ stopped panicked
        | some pointer ↦ served (put_update s moves damage pointer)
      ]
