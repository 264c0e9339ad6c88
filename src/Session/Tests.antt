-- ===== src/Session/Tests.antt =====
-- A session with a client, and the theorems at it.
use alloyvnc.Base.{◌+◌, ℕ, ◌≡◌, refl, inl, false, none, [], ◌∷◌, arith, if◌then◌else◌}
use alloyvnc.Base.Words.{i32}
use alloyvnc.Region.Rect
use alloyvnc.Region.Rect.{Rect, Move}
use alloyvnc.Region.Bands
use alloyvnc.Region.Bands.{Region}
use alloyvnc.Region.Bands.Edits.{from_rect-Gives}
use alloyvnc.Flow
use alloyvnc.Flow.{Limits, default_limits}
use alloyvnc.Proto.Error.{unsupported_pixel_format}
use alloyvnc.Proto.PixelFormat.{PixelFormat, bgrx32, validate}
use alloyvnc.Proto.Clipboard.{Deflate}
use alloyvnc.Proto.Message.{client_cut_text, set_pixel_format}
use alloyvnc.Encode.Framebuffer
use alloyvnc.Encode.Framebuffer.{Framebuffer}
use alloyvnc.Encode.Convert.{raw_encode}
use alloyvnc.Session
use alloyvnc.Session.{Session, Shared, Encoders, FrameEvent, Served, served, stopped, wire}
use alloyvnc.Session.Frames.{absorb}
use alloyvnc.Session.Clipboard.{onto_the_desk, clip_moved}
use alloyvnc.Session.Handle.{
  fence_asked, fence_request, handle, change_format, request_update, wire_rect,
}
use alloyvnc.Session.Send.{send_next}
use alloyvnc.Session.Faults.{IsRefused, handle-stopped}
use alloyvnc.Session.Echo.{handle-clip_moved}
use alloyvnc.Session.Picture.{Picture, Knows}
use alloyvnc.Session.Picture.Absorb.{Shows, absorb-Knows, all_pending}
use alloyvnc.Session.Picture.Steps.{Scene, first, Steps}

-- Encoders that write raw pixels.
abbrev plain : Encoders (Unit {0})
plain = record {
  new_hextile = tt;
  new_zrle = λ level. tt;
  new_tight = λ level quality. tt;
  encode_hextile = λ h fb r pf. (h, raw_encode fb r pf);
  encode_zrle = λ z fb r pf. (z, raw_encode fb r pf);
  encode_tight =
      λ t fb r pf. (t, raw_encode fb r pf, record { fill = 0; palette = 0; jpeg = 0; copy = 0 });
  piece_rects = λ r. r ∷ [];
}

abbrev stored : Deflate
stored = λ bytes. bytes

abbrev small : Framebuffer
small = Framebuffer.new 2 1

abbrev desk : Shared
desk = record { fb = small; screens = []; cursor = none }

abbrev blank : Picture ℕ
blank = λ x y. 0

abbrev seven : Picture ℕ
seven = λ x y. 7

abbrev opened : Session (Unit {0})
opened = Session.start default_limits small

abbrev asked : Session (Unit {0})
asked = request_update desk opened false (wire_rect 0 0 2 1)

abbrev shown_all : Session (Unit {0})
shown_all = elim (send_next plain desk asked 9) [ served s ↦ s | stopped why ↦ asked ]

abbrev start_scene : Scene (Unit {0}) ℕ
start_scene = first default_limits small seven

abbrev end_scene : Scene (Unit {0}) ℕ
end_scene = record { bounds = Framebuffer.bounds small; session = shown_all; screen = seven }

opened-Knows : Knows (Framebuffer.bounds small) blank seven opened.pending opened.copies
unfolding Session.start
opened-Knows = all_pending (Framebuffer.bounds small) blank seven

abbrev palette : PixelFormat
palette = record bgrx32 { true_colour = false }

text_handled :
    handle plain stored desk 5 opened (client_cut_text (104 ∷ 105 ∷ []))
    ≡ served (onto_the_desk opened (104 ∷ 105 ∷ []))
unfolding handle
text_handled = refl

palette_refused :
    handle plain stored desk 5 opened (set_pixel_format palette)
    ≡ stopped (wire (unsupported_pixel_format "colour map"))
unfolding handle change_format validate
palette_refused = refl

-- The first column is damage.
abbrev column : FrameEvent
column = record {
  at = 12;
  damage = Bands.from_rect (Rect.new (i32 0) (i32 0) (i32 1) (i32 1));
  moves = [];
  cursor = none;
  resized = false;
}

abbrev eight : Picture ℕ
eight = λ x y. if Rect.contains_point (Rect.new (i32 0) (i32 0) (i32 1) (i32 1)) x y then 8 else 7

column-Shows : Shows column seven eight
unfolding Bands.contains_point Bands.from_rect Rect.new Rect.is_empty
column-Shows x y h = ground (arith, h)

absorb-Knows_example :
    Knows
      (Framebuffer.bounds small)
      blank
      eight
      (absorb desk opened column).pending
      (absorb desk opened column).copies
absorb-Knows_example =
    absorb-Knows desk (Framebuffer.bounds small) opened column blank seven eight refl
      (from_rect-Gives (Rect.new (i32 0) (i32 0) (i32 1) (i32 1))).normal tt column-Shows
      opened-Knows

handle-stopped_example :
    (handle plain stored desk 5 opened (set_pixel_format palette)
        ≡ stopped (wire (unsupported_pixel_format "colour map"))
      → IsRefused (set_pixel_format palette) (wire (unsupported_pixel_format "colour map")))
    × (IsRefused (set_pixel_format palette) (wire (unsupported_pixel_format "colour map"))
        → handle plain stored desk 5 opened (set_pixel_format palette)
          ≡ stopped (wire (unsupported_pixel_format "colour map")))
handle-stopped_example =
    handle-stopped plain stored desk 5 opened (set_pixel_format palette)
      (wire (unsupported_pixel_format "colour map"))

handle-clip_moved_example :
    clip_moved stored (onto_the_desk opened (104 ∷ 105 ∷ [])) (104 ∷ 105 ∷ [])
    ≡ onto_the_desk opened (104 ∷ 105 ∷ [])
handle-clip_moved_example =
    handle-clip_moved plain stored desk 5 opened (onto_the_desk opened (104 ∷ 105 ∷ []))
      (client_cut_text (104 ∷ 105 ∷ [])) (104 ∷ 105 ∷ []) (inl refl) text_handled

-- A fence asks the server to stop reading, and to answer with the next update.
abbrev fenced : Session (Unit {0})
fenced = fence_asked opened (fence_request + 6) []
