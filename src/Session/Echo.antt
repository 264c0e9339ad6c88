-- ===== src/Session/Echo.antt =====
-- The clipboard does not go around in circles (`clip_moved`, `onto_the_desk` of
-- crates/alloyvnc/src/session.rs).
use mathlib.Core.Path.{subst}
use alloyvnc.Base.{◌≡◌, refl, inl, inr, ◌⊎◌, true, some, [], ◌∷◌, arith}
use alloyvnc.Flow.{Instant}
use alloyvnc.Proto.Text.{Text}
use alloyvnc.Proto.Clipboard.{Deflate, provide}
use alloyvnc.Proto.Message.{ClientMessage, client_cut_text, extended_clipboard}
use alloyvnc.Session.{Serves, Session, Shared, Encoders, served}
use alloyvnc.Session.Clipboard.{eq_text, is_echo, onto_the_desk, clip_moved}
use alloyvnc.Session.Clipboard as Clips
use alloyvnc.Session.Handle.{handle}

eq_text_refl : (text : Text) → eq_text text text ≡ true
unfolding eq_text
eq_text_refl [] = refl
eq_text_refl (c ∷ text) = let rest = eq_text_refl text in ground (arith, rest)

-- The message brings a text for the desk.
abbrev pub Brings : ClientMessage → Text → Type 0
Brings m text = (m ≡ client_cut_text text) ⊎ (m ≡ extended_clipboard (provide (some text)))

onto_the_desk-clip_moved :
    {State : Type 0} (deflate : Deflate) (s : Session State) (text : Text)
    → clip_moved deflate (onto_the_desk s text) text ≡ onto_the_desk s text
unfolding clip_moved is_echo onto_the_desk
onto_the_desk-clip_moved deflate s text = rw (eq_text_refl text) refl

brought_lem :
    {State : Type 0} (encoders : Encoders State) (deflate : Deflate) (shared : Shared)
    (now : Instant) (s : Session State) (m : ClientMessage) (text : Text)
    → Brings m text
    → Serves (λ u. clip_moved deflate u text ≡ u) (handle encoders deflate shared now s m)
unfolding handle Clips.extended_clipboard
brought_lem encoders deflate shared now s m text (inl cut) =
    rw cut (onto_the_desk-clip_moved deflate s text)
brought_lem encoders deflate shared now s m text (inr provided) =
    rw provided (onto_the_desk-clip_moved deflate s text)

-- When the desk tells of the text that a client just put there, by either clipboard message, the
-- session does nothing: the text is not sent back.
pub handle-clip_moved :
    {State : Type 0} (encoders : Encoders State) (deflate : Deflate) (shared : Shared)
    (now : Instant) (s s' : Session State) (m : ClientMessage) (text : Text)
    → Brings m text
    → handle encoders deflate shared now s m ≡ served s'
    → clip_moved deflate s' text ≡ s'
handle-clip_moved encoders deflate shared now s s' m text brings h =
    subst (Serves (λ u. clip_moved deflate u text ≡ u)) h
      (brought_lem encoders deflate shared now s m text brings)
