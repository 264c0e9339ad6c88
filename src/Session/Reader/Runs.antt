-- ===== src/Session/Reader/Runs.antt =====
-- A paused reader over the runs of a session (`serve_loop` of crates/alloyvnc/src/session.rs).
use alloyvnc.Base.{◌≡◌, false, List, [], ◌∷◌, ◌++◌}
use alloyvnc.Flow.{Instant}
use alloyvnc.Proto.Wire.{Bytes}
use alloyvnc.Encode.Framebuffer.{Framebuffer}
use alloyvnc.Session
use alloyvnc.Session.{
  supports, Session, Shared, Encoders, FrameEvent, Served, stopped, served, resize_encoding,
}
use alloyvnc.Session.Send.{send_next}
use alloyvnc.Session.Picture.{Picture}
use alloyvnc.Session.Picture.Steps.{sent, Steps}

-- `send_next` gives the writer the first message that waits, and lets the reader go on.
abbrev pub SendsFirst :
    {State : Type 0} → Encoders State → Shared → Session State → Instant → Type 0
SendsFirst {State = State} encoders shared s now =
    (buf : Bytes) × (rest : List Bytes) × (u : Session State) × ((s.outbox ≡ buf ∷ rest)
      × ((send_next encoders shared s now ≡ served u)
          × ((u.sent ≡ s.sent ++ buf ∷ []) × ((u.outbox ≡ rest) × (u.reader_paused ≡ false)))))
