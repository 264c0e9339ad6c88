-- ===== src/Session/Picture/Run.antt =====
-- What a session believes of its client after `send_next` of crates/alloyvnc/src/session.rs.
use mathlib.Core.Path.{subst}
use Prim.Native.Nat.{bit_or}
use alloyvnc.Base.{
  ℕ, ◌++◌, length, inl, inr, ◌⊎◌, Bool-cases, sym, ap, ◌≡◌, refl, ◌∙◌, Bool, true, false, Option,
  none, some, List, [], ◌∷◌,
}
use alloyvnc.Region.Rect.{Rect}
use alloyvnc.Base.Words.{I32}
use alloyvnc.Flow
use alloyvnc.Flow.{Instant, Congestion}
use alloyvnc.Proto.Wire.{Bytes}
use alloyvnc.Proto.Server.{write_server_fence}
use alloyvnc.Session.Handle.{fence_request, fence_block_before}
use alloyvnc.Encode.Framebuffer
use alloyvnc.Session.{Serves, resize_encoding, Session, Shared, Encoders, Served, stopped, served}
use alloyvnc.Session.Frames.{due_area}
use alloyvnc.Session.Update.{resize_by, resize_update}
use alloyvnc.Session.Send.{
  be64, split_copies, same_size, size_of, build_update, post_update, posted, update_over, send_over,
  send_update, send_next,
}
use alloyvnc.Session.Picture.{Picture, Knows}
use alloyvnc.Session.Picture.Absorb.{all_pending}
use alloyvnc.Session.Picture.Carried.{IsCut, Says}
use alloyvnc.Session.Picture.Update.{fill_update-Knows, HasSent, Done}

-- The response that goes in front of the update.
abbrev pub held_in_front : {State : Type 0} → Session State → Bytes
held_in_front s = elim s.held_fence [ some fence ↦ fence | none ↦ [] ]

-- The ping that may follow the update.
abbrev pub IsTail : Bytes → Type 0
IsTail tail =
    (tail ≡ [])
    ⊎ ((number : ℕ) × (tail
          ≡ write_server_fence (bit_or fence_request fence_block_before) (be64 number)))

-- What the writer was given between two moments of a session, and what a client that carries it out
-- has before and after: nothing, or the response that was held, an update and maybe a ping.
abbrev pub Reads :
    {State Pixel : Type 0}
    → Encoders State
    → Shared
    → (s s' : Session State) → (screen p q : Picture Pixel) → Type 0
Reads encoders shared s s' screen p q =
    ((s'.sent ≡ s.sent) × (q ≡ p))
    ⊎ ((area : Rect) × (out : Bytes) × (tail : Bytes) × ((s'.sent
            ≡ s.sent ++ ((held_in_front s ++ out) ++ tail) ∷ [])
          × (IsTail tail × Says encoders shared (split_copies s area) screen out p q)))

module _ {State Pixel : Type 0} (encoders : Encoders State) (shared : Shared)
    (client screen : Picture Pixel) (s : Session State) (now : Instant)
    (same : same_size (size_of (Framebuffer.bounds shared.fb)) s.client_size ≡ true)
    (k : Knows (Framebuffer.bounds shared.fb) client screen s.pending s.copies) where
  abbrev pub Read : Session State → Type 0
  Read s' =
      (client' : Picture Pixel) × (Reads encoders shared s s' screen client client'
        × Knows (Framebuffer.bounds shared.fb) client' screen s'.pending s'.copies)

  post_update-Reads :
      (area : Rect) (s' : Session State) (out : Bytes) (client' : Picture Pixel)
      → HasSent s s'
      → Says encoders shared (split_copies s area) screen out client client'
      → Reads encoders shared s (post_update s' out now) screen client client'
  unfolding post_update
  post_update-Reads area s' out client' same says =
      let flow : Congestion = Flow.wrote s'.flow (length (held_in_front s' ++ out)) in
      let front : held_in_front s' ≡ held_in_front s =
        ap (λ held. elim held [ some fence ↦ fence | none ↦ [] ]) same.1 in
      elim (Bool-cases (Flow.ping_due flow now)) [
        | inl due ↦
            let tail : Bytes =
              write_server_fence (bit_or fence_request fence_block_before)
                (be64 (Flow.ping flow now).0) in
            inr (area, out, tail, (rw (due, same.0, front) refl, (inr (_, refl), says)))
        | inr due ↦ inr (area, out, [], (rw (due, same.0, front) refl, (inl refl, says)))
      ]

  posted-Read :
      (area : Rect) (done : Served (Bool × Session State × Bytes))
      → Done encoders shared (Framebuffer.bounds shared.fb) client screen s area k done
      → Serves Read (posted now done)
  unfolding posted post_update
  posted-Read area (stopped why) d = tt
  posted-Read area (served (true, s', out)) d =
      (d.0, (post_update-Reads area s' out d.0 d.1.1.1 d.1.0, d.1.1.0))
  posted-Read area (served (false, s', out)) d = (client, (inl (d.1.0, refl), d.0))

  update_over-Read :
      (due : Option Rect) → IsCut encoders → Serves Read (update_over encoders shared s now due)
  unfolding update_over build_update
  update_over-Read none cut = (client, (inl (refl, refl), k))
  update_over-Read (some area) cut = rw same (
      posted-Read area _ (
        fill_update-Knows encoders shared (Framebuffer.bounds shared.fb) client screen s area k
          cut))

-- An update that tells the client a new size leaves all of the picture pending.
resize_by-Known :
    {State Pixel : Type 0} (encoders : Encoders State) (shared : Shared)
    (client' screen : Picture Pixel) (s : Session State) (now : Instant) (enc : Option I32)
    → Serves
        (λ s'. Knows (Framebuffer.bounds shared.fb) client' screen s'.pending s'.copies)
        (posted now (resize_by encoders shared s (Framebuffer.bounds shared.fb) enc))
unfolding posted post_update resize_by
resize_by-Known encoders shared client' screen s now none = tt
resize_by-Known encoders shared client' screen s now (some enc) =
    all_pending (Framebuffer.bounds shared.fb) client' screen

-- `send_next`, where the client knows the size of the picture, and no message of the outbox goes
-- first.
pub send_next-Read :
    {State Pixel : Type 0} (encoders : Encoders State) (shared : Shared)
    (client screen : Picture Pixel) (s s' : Session State) (now : Instant)
    (same : same_size (size_of (Framebuffer.bounds shared.fb)) s.client_size ≡ true)
    → IsCut encoders
    → s.outbox ≡ []
    → send_next encoders shared s now ≡ served s'
    → (k : Knows (Framebuffer.bounds shared.fb) client screen s.pending s.copies)
    → Read encoders shared client screen s now same k s'
unfolding send_next send_over send_update
send_next-Read encoders shared client screen s s' now same cut empty sent k =
    subst (Serves (Read encoders shared client screen s now same k))
      (sym (ap (send_over encoders shared s now) empty) ∙ sent)
      (update_over-Read encoders shared client screen s now same k (due_area s) cut)

-- `send_next`, where it does not, and no message of the outbox goes first.
pub send_next-resizing :
    {State Pixel : Type 0} (encoders : Encoders State) (shared : Shared)
    (client' screen : Picture Pixel) (s s' : Session State) (area : Rect) (now : Instant)
    → same_size (size_of (Framebuffer.bounds shared.fb)) s.client_size ≡ false
    → s.outbox ≡ []
    → due_area s ≡ some area
    → send_next encoders shared s now ≡ served s'
    → Knows (Framebuffer.bounds shared.fb) client' screen s'.pending s'.copies
unfolding send_next send_over send_update update_over build_update resize_update
send_next-resizing encoders shared client' screen s s' area now other empty due sent =
    let built : update_over encoders shared s now (some area)
        ≡ posted now
            (resize_by encoders shared s (Framebuffer.bounds shared.fb) (resize_encoding s)) =
      rw other refl in
    subst (Serves (λ u. Knows (Framebuffer.bounds shared.fb) client' screen u.pending u.copies))
      (sym built
        ∙ (sym (ap (update_over encoders shared s now) due)
            ∙ (sym (ap (send_over encoders shared s now) empty) ∙ sent)))
      (resize_by-Known encoders shared client' screen s now (resize_encoding s))

-- `send_next`, where a message of the outbox goes first.
pub send_next-handing :
    {State Pixel : Type 0} (encoders : Encoders State) (shared : Shared) (bounds : Rect)
    (client screen : Picture Pixel) (s s' : Session State) (now : Instant) (buf : Bytes)
    (bufs : List Bytes)
    → s.outbox ≡ buf ∷ bufs
    → send_next encoders shared s now ≡ served s'
    → Knows bounds client screen s.pending s.copies
    → Knows bounds client screen s'.pending s'.copies
unfolding send_next send_over
send_next-handing encoders shared bounds client screen s s' now buf bufs waiting sent k =
    subst (Serves (λ u. Knows bounds client screen u.pending u.copies))
      (sym (ap (send_over encoders shared s now) waiting) ∙ sent) k
