-- ===== src/Session/Picture/Steps.antt =====
-- Runs of a session, of the screen it looks at, and of a client that carries out what the writer was
-- given (`serve_loop` of crates/alloyvnc/src/session.rs).
use alloyvnc.Base.{◌≡◌, true, false, some, List, [], ◌∷◌, All}
use alloyvnc.Region.Rect.{Rect}
use alloyvnc.Region.Bands
use alloyvnc.Region.Bands.Strips.{IsNormal}
use alloyvnc.Flow
use alloyvnc.Flow.{Instant, Duration, Limits}
use alloyvnc.Proto.Wire.{Bytes}
use alloyvnc.Proto.Text.{Text}
use alloyvnc.Proto.Clipboard.{Deflate}
use alloyvnc.Proto.Message.{ClientMessage}
use alloyvnc.Encode.Framebuffer
use alloyvnc.Encode.Framebuffer.{Framebuffer}
use alloyvnc.Session
use alloyvnc.Session.{Session, Shared, Encoders, FrameEvent, Served, stopped, served, is_some}
use alloyvnc.Session.Frames.{due_area, absorb, lagged}
use alloyvnc.Session.Clipboard.{clip_moved}
use alloyvnc.Session.Handle.{handle}
use alloyvnc.Session.Send.{same_size, size_of, send_next, release_fence, want_send}
use alloyvnc.Session.Picture.{Picture, IsMove, Knows}
use alloyvnc.Session.Picture.Absorb.{Shows}
use alloyvnc.Session.Picture.Run.{Reads}

-- The picture has a size, and the session and the screen are at some moment.
pub record Scene (State Pixel : Type 0) : Type 0 where
  pub bounds : Rect
  pub session : Session State
  pub screen : Picture Pixel

abbrev pub KnowsScene : {State Pixel : Type 0} → Scene State Pixel → Picture Pixel → Type 0
KnowsScene a client = Knows a.bounds client a.screen a.session.pending a.session.copies

-- What happens next: an arm of the loop, with what it means for the screen. An
-- update is built while the picture is the one of the last frame that the session took.
pub data Step {State Pixel : Type 0} (encoders : Encoders State) (deflate : Deflate)
    : Scene State Pixel → Scene State Pixel → Type 0 where
  expired :
      (a : Scene State Pixel) (now : Instant)
      → Step encoders deflate a
          (record a { session = record a.session { flow = Flow.expire a.session.flow now } })
  heard :
      (a : Scene State Pixel) (shared : Shared) (now : Instant) (m : ClientMessage)
      (s' : Session State)
      → a.session.reader_paused ≡ false
      → handle encoders deflate shared now a.session m ≡ served s'
      → Step encoders deflate a (record a { session = s' })
  released :
      (a : Scene State Pixel)
      → Step encoders deflate a (record a { session = release_fence a.session })
  told :
      (a : Scene State Pixel) (text : Text)
      → Step encoders deflate a (record a { session = clip_moved deflate a.session text })
  framed :
      (a : Scene State Pixel) (shared : Shared) (ev : FrameEvent) (screen' : Picture Pixel)
      → ev.resized ≡ false
      → IsNormal ev.damage.rects
      → All (IsMove a.bounds) ev.moves
      → Shows ev a.screen screen'
      → Step encoders deflate a
          (record a { session = absorb shared a.session ev; screen = screen' })
  resized :
      (a : Scene State Pixel) (shared : Shared) (ev : FrameEvent) (screen' : Picture Pixel)
      → ev.resized ≡ true
      → IsNormal ev.damage.rects
      → All (IsMove (Framebuffer.bounds shared.fb)) ev.moves
      → Shows ev a.screen screen'
      → Step encoders deflate a (record {
        bounds = Framebuffer.bounds shared.fb;
        session = absorb shared a.session ev;
        screen = screen';
      })
  behind :
      (a : Scene State Pixel) (shared : Shared) (now : Instant) (screen' : Picture Pixel)
      → Step encoders deflate a (record {
        bounds = Framebuffer.bounds shared.fb;
        session = lagged shared a.session now;
        screen = screen';
      })
  handed :
      (a : Scene State Pixel) (shared : Shared) (now : Instant) (s' : Session State) (buf : Bytes)
      (bufs : List Bytes)
      → a.session.outbox ≡ buf ∷ bufs
      → send_next encoders shared a.session now ≡ served s'
      → Step encoders deflate a (record a { session = s' })
  sent :
      (a : Scene State Pixel) (shared : Shared) (min_interval : Duration) (now : Instant)
      (s' : Session State)
      → want_send a.session min_interval now ≡ true
      → Framebuffer.bounds shared.fb ≡ a.bounds
      → same_size (size_of (Framebuffer.bounds shared.fb)) a.session.client_size ≡ true
      → a.session.outbox ≡ []
      → send_next encoders shared a.session now ≡ served s'
      → Step encoders deflate a (record a { session = s' })
  told_size :
      (a : Scene State Pixel) (shared : Shared) (min_interval : Duration) (now : Instant)
      (s' : Session State) (area : Rect) (client' : Picture Pixel)
      → want_send a.session min_interval now ≡ true
      → Framebuffer.bounds shared.fb ≡ a.bounds
      → same_size (size_of (Framebuffer.bounds shared.fb)) a.session.client_size ≡ false
      → a.session.outbox ≡ []
      → due_area a.session ≡ some area
      → send_next encoders shared a.session now ≡ served s'
      → Step encoders deflate a (record a { session = s' })

pub data Steps {State Pixel : Type 0} (encoders : Encoders State) (deflate : Deflate)
    (a : Scene State Pixel) : Scene State Pixel → Type 0 where
  here : Steps encoders deflate a a
  after :
      {b c : Scene State Pixel}
      → Steps encoders deflate a b
      → Step encoders deflate b c
      → Steps encoders deflate a c

-- What a client has before and after an arm of the loop: an update it carries out from its bytes,
-- a size that it is told leaves it with anything, and no other arm gives it pixels.
abbrev pub Sees :
    {State Pixel : Type 0} (encoders : Encoders State) (deflate : Deflate) (a b : Scene State Pixel)
    → Step encoders deflate a b
    → (p q : Picture Pixel) → Type 0
Sees encoders deflate a b (expired _ now) p q = q ≡ p
Sees encoders deflate a b (heard _ shared now m s' reads done) p q = q ≡ p
Sees encoders deflate a b (released _) p q = q ≡ p
Sees encoders deflate a b (told _ text) p q = q ≡ p
Sees encoders deflate a b (framed _ shared ev screen' same n moves shows) p q = q ≡ p
Sees encoders deflate a b (resized _ shared ev screen' other n moves shows) p q = q ≡ p
Sees encoders deflate a b (behind _ shared now screen') p q = q ≡ p
Sees encoders deflate a b (handed _ shared now s' buf bufs waiting done) p q = q ≡ p
Sees encoders deflate a b (sent _ shared min_interval now s' wants size same empty done) p q =
    Reads encoders shared a.session s' a.screen p q
Sees encoders deflate a b
      (told_size _ shared min_interval now s' area client' wants size other empty due done) p q =
    q ≡ client'

-- The same over a run.
abbrev pub Watches :
    {State Pixel : Type 0} (encoders : Encoders State) (deflate : Deflate) (a b : Scene State Pixel)
    → Steps encoders deflate a b
    → (p q : Picture Pixel) → Type 0
Watches encoders deflate a b here p q = q ≡ p
Watches {Pixel = Pixel} encoders deflate a b (after {b = mid} steps step) p q =
    (r : Picture Pixel) × (Watches encoders deflate a mid steps p r
      × Sees encoders deflate mid b step r q)

-- A session starts with the picture of a size, and a screen.
abbrev pub first :
    {State Pixel : Type 0} → Limits → Framebuffer → (screen : Picture Pixel) → Scene State Pixel
first limits fb screen = record {
  bounds = Framebuffer.bounds fb;
  session = Session.start limits fb;
  screen = screen;
}
