-- ===== src/Session/Send.antt =====
-- `build_update`, `send_next` and one turn of `serve_loop` of crates/alloyvnc/src/session.rs.
use Prim.Native.Nat.{bit_or}
use alloyvnc.Base.{
  ℕ, ◌+◌, ◌-◌, ◌/◌, ◌%◌, ◌^◌, Bool, true, false, not, ◌&&◌, Option, none, some, List, [], ◌∷◌, ◌++◌,
  length, leb, ◌==◌, if◌then◌else◌,
}
use alloyvnc.Base.Words.{bits_i32}
use alloyvnc.Region.Rect
use alloyvnc.Region.Rect.{Rect, Move}
use alloyvnc.Region.Bands
use alloyvnc.Region.Bands.{Region}
use alloyvnc.Flow
use alloyvnc.Flow.{Instant, Duration}
use alloyvnc.Proto.Wire.{Bytes, be32}
use alloyvnc.Proto.Server.{write_server_fence}
use alloyvnc.Encode.Framebuffer
use alloyvnc.Session.{Session, Shared, Encoders, Served, served, stopped, is_some}
use alloyvnc.Session.Frames.{due_area, has_something_for}
use alloyvnc.Session.Handle.{fence_request, fence_block_before}
use alloyvnc.Session.Update.{
  sendable, keep_for_later, resize_update, cursor_due, layout_due, write_update,
}

-- `u64::to_be_bytes`
abbrev pub be64 : ℕ → Bytes
be64 v = be32 (v / 2 ^ 32) ++ be32 (v % 2 ^ 32)

abbrev pub no_moves : List Move → Bool
no_moves [] = true
no_moves (m ∷ ms) = false

-- The size of the picture that the source compares with the client's.
abbrev pub size_of : Rect → ℕ × ℕ
size_of bounds = (bits_i32 (Rect.width bounds), bits_i32 (Rect.height bounds))

abbrev pub same_size : ℕ × ℕ → ℕ × ℕ → Bool
same_size p q = p.0 == q.0 && p.1 == q.1

module _ {State : Type 0} where
  -- `std::mem::take(&mut self.copies)` and the loop over them.
  abbrev pub split_copies : Session State → Rect → Session State
  split_copies s area = record s { pending = keep_for_later area s.copies s.pending; copies = [] }

  -- The update with the fence that was held for it in front and a ping behind it.
  unfoldable pub post_update : Session State → Bytes → Instant → Session State
  post_update s out now =
      let fence : Bytes = elim s.held_fence [ some fence ↦ fence | none ↦ [] ] in
      let flow : Flow.Congestion = Flow.wrote s.flow (length (fence ++ out)) in
      let started : ℕ × Flow.Congestion = Flow.ping flow now in
      let due : Bool = Flow.ping_due flow now in
      let latency : List Duration = elim s.newest_frame [
        | some at ↦ s.counters.latency ++ (now - at) ∷ []
        | none ↦ s.counters.latency
      ] in
      let tail : Bytes =
        if due
        then write_server_fence (bit_or fence_request fence_block_before) (be64 started.0)
        else [] in
      record s {
        held_fence = none;
        reader_paused = if is_some s.held_fence then false else s.reader_paused;
        flow = if due then started.1 else flow;
        newest_frame = none;
        counters = record s.counters { latency = latency };
        last_update = some now;
        sent = s.sent ++ ((fence ++ out) ++ tail) ∷ [];
      }

  -- The update that was built, if there is one, to the writer.
  unfoldable pub posted : Instant → Served (Bool × Session State × Bytes) → Served (Session State)
  unfolding post_update
  posted now (stopped why) = stopped why
  posted now (served (ready, s', out)) = served (if ready then post_update s' out now else s')

module _ {State : Type 0} (encoders : Encoders State) (shared : Shared) where
  unfoldable pub fill_update : Session State → Rect → Served (Bool × Session State × Bytes)
  unfolding write_update keep_for_later sendable
  fill_update s area =
      let split : Session State = split_copies s area in
      let moves : List Move = sendable area s.copies in
      let damage : Region = Bands.intersect_rect split.pending area in
      if no_moves moves
        && (Bands.is_empty damage && (not (is_some (cursor_due split)) && not (layout_due split)))
      then served (false, split, [])
      else write_update encoders shared split moves damage

  unfoldable pub build_update : Session State → Rect → Served (Bool × Session State × Bytes)
  unfolding fill_update resize_update
  build_update s area =
      let bounds : Rect = Framebuffer.bounds shared.fb in
      if same_size (size_of bounds) s.client_size
      then fill_update s area
      else resize_update encoders shared s bounds

  unfoldable pub update_over : Session State → Instant → Option Rect → Served (Session State)
  unfolding build_update posted
  update_over s now none = served s
  update_over s now (some area) = posted now (build_update s area)

  unfoldable pub send_update : Session State → Instant → Served (Session State)
  unfolding update_over
  send_update s now = update_over s now (due_area s)

  -- One message of the outbox, or an update.
  unfoldable pub send_over : Session State → Instant → List Bytes → Served (Session State)
  unfolding send_update
  send_over s now [] = send_update s now
  send_over s now (buf ∷ bufs) = served (record s {
    outbox = bufs;
    flow = Flow.wrote s.flow (length buf);
    reader_paused = false;
    sent = s.sent ++ buf ∷ [];
  })

  unfoldable pub send_next : Session State → Instant → Served (Session State)
  unfolding send_over
  send_next s now = send_over s now s.outbox

-- A response held for an update that can never come.
unfoldable pub release_over : {State : Type 0} → Session State → Option Bytes → Session State
release_over s none = s
release_over s (some fence) =
    if is_some (due_area s)
    then s
    else record s { held_fence = none; outbox = s.outbox ++ fence ∷ [] }

unfoldable pub release_fence : {State : Type 0} → Session State → Session State
unfolding release_over
release_fence s = release_over s s.held_fence

-- `want_send` of a turn; the clock of the throttle is `ready_at`.
unfoldable pub want_send : {State : Type 0} → Session State → Duration → Instant → Bool
want_send s min_interval now = elim s.outbox [
  | buf ∷ bufs ↦ true
  | [] ↦ elim (due_area s) [
    | none ↦ false
    | some area ↦
        let ready_at : Instant = elim s.last_update [ none ↦ now | some t ↦ t + min_interval ] in
        has_something_for s area && (leb ready_at now && Flow.may_send s.flow)
  ]
]
