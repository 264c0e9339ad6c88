-- ===== src/Session/Picture/Update.antt =====
-- An update keeps what the session believes of its client true (`build_update` of
-- crates/alloyvnc/src/session.rs).
use alloyvnc.Base.{
  ◌-◌, ◌<◌, ◌≡◌, refl, ◌∙◌, inl, inr, ◌⊎◌, Bool, true, false, not, ◌&&◌, ◌||◌, Bool-cases, Option,
  none, some, List, [], ◌∷◌, length, if◌then◌else◌, arith, ltb,
}
use alloyvnc.Base.Words.{I32, u16_mod}
use alloyvnc.Region.Rect
use alloyvnc.Region.Rect.{Rect, Move}
use alloyvnc.Region.Rect.Points.{contains_lem, union_bounds_lem}
use alloyvnc.Region.Bands
use alloyvnc.Region.Bands.{Region, holds}
use alloyvnc.Region.Bands.Strips.{IsNormal}
use alloyvnc.Region.Bands.Laws.{Gives, subtract-Gives}
use alloyvnc.Region.Bands.Edits.{add-remove, intersect_rect-Gives}
use alloyvnc.Proto.Wire.{Bytes}
use alloyvnc.Session.{Session, Shared, Encoders, Served, served, stopped, is_some}
use alloyvnc.Session.Update.{
  sendable, keep_for_later, rects_to_send, encode_all, write_update, cursor_due, layout_due,
  cursor_bytes, update_count, rects_of_update, counted, put_update,
}
use alloyvnc.Session.Send.{split_copies, no_moves, fill_update}
use alloyvnc.Session.Picture.{Picture, replay, paint, Knows}
use alloyvnc.Session.Picture.Carried.{IsCut, Says, put_update-Says}
use alloyvnc.Session.Picture.Moves.{unsent, replay-sendable}

-- The bounds of a list of rectangles hold the points of each.
bounds_from_lem :
    (x y : I32) (rs : List Rect) (b : Rect)
    → (Rect.contains_point b x y ≡ true → Rect.contains_point (Bands.bounds_from b rs) x y ≡ true)
      × (holds x y rs ≡ true → Rect.contains_point (Bands.bounds_from b rs) x y ≡ true)
unfolding Bands.bounds_from
bounds_from_lem x y [] b = (λ h. h, λ h. ground arith)
bounds_from_lem x y (r ∷ rs) b =
    let u = union_bounds_lem b r in
    let rest = bounds_from_lem x y rs (Rect.union_bounds b r) in
    (
      λ h. rest.0 ((contains_lem (Rect.union_bounds b r) b).0 u.0 x y h),
      λ h. elim (Bool-cases (Rect.contains_point r x y)) [
        | inl on ↦ rest.0 ((contains_lem (Rect.union_bounds b r) r).0 u.1 x y on)
        | inr off ↦ rest.1 (ground arith)
      ],
    )

rects_to_send_lem :
    (damage : Region) (x y : I32)
    → Bands.contains_point damage x y ≡ true
    → holds x y (rects_to_send damage) ≡ true
unfolding rects_to_send Bands.bounds Bands.contains_point
rects_to_send_lem damage x y h =
    let b = (bounds_from_lem x y damage.rects Rect.empty).1 h in ground arith

keep_for_later-Gives :
    (area : Rect) (ms : List Move) (pending : Region)
    → IsNormal pending.rects
    → Gives
        (λ x y. Bands.contains_point pending x y || unsent area ms x y)
        (keep_for_later area ms pending)
unfolding keep_for_later unsent
keep_for_later-Gives area [] pending n = record { normal = n; points = λ x y. ground arith }
keep_for_later-Gives area (m ∷ ms) pending n =
    let added = (add-remove pending m.dst n).0 in
    let same = keep_for_later-Gives area ms pending n in
    let more = keep_for_later-Gives area ms (Bands.add pending m.dst) added.normal in
    elim (Bool-cases (Rect.contains area m.dst)) [
      | inl goes ↦ rw goes same
      | inr stays ↦ rw stays (record {
        normal = more.normal;
        points = λ x y. more.points x y ∙ ground (arith, added.points x y);
      })
    ]

-- What the client has once the copies are carried out and the damage is painted.
abbrev pub after_update :
    {Pixel : Type 0} → (client screen : Picture Pixel) → Rect → List Move → Region → Picture Pixel
after_update client screen area copies pending =
    paint screen (rects_to_send (Bands.intersect_rect (keep_for_later area copies pending) area))
      (replay (sendable area copies) client)

module _ {Pixel : Type 0} (bounds : Rect) (client screen : Picture Pixel) where
  -- Whatever stays pending, if a point that is not was damage or was not pending before.
  delivered :
      (area : Rect) (copies : List Move) (pending left : Region)
      → IsNormal left.rects
      → ((x y : I32)
          → Bands.contains_point left x y ≡ false
          → (Bands.contains_point
                (Bands.intersect_rect (keep_for_later area copies pending) area)
                x
                y
              ≡ true)
            ⊎ (Bands.contains_point (keep_for_later area copies pending) x y ≡ false))
      → Knows bounds client screen pending copies
      → Knows bounds (after_update client screen area copies pending) screen left []
  delivered area copies pending left n h k =
      let kept = keep_for_later-Gives area copies pending k.normal in
      let damage : Region = Bands.intersect_rect (keep_for_later area copies pending) area in
      record {
        agrees = λ x y inside p. elim (Bool-cases (holds x y (rects_to_send damage))) [
          | inl on ↦ rw on
          | inr off ↦ rw off (elim (h x y p) [
            | inl hit ↦ let yes = rects_to_send_lem damage x y hit in cc
            | inr clear ↦
                replay-sendable bounds area copies client k.moves k.apart x y
                  (ground (arith, kept.points x y))
                ∙ k.agrees x y inside (ground (arith, kept.points x y))
          ])
        ];
        normal = n;
        apart = tt;
        moves = tt;
      }

-- Nothing more was sent, and the same response is held.
abbrev pub HasSent : {State : Type 0} → (s s' : Session State) → Type 0
HasSent s s' = (s'.sent ≡ s.sent) × (s'.held_fence ≡ s.held_fence)

module _ {State : Type 0} (encoders : Encoders State) (shared : Shared) where
  -- Encoding leaves what is owed, what is held and what was sent alone.
  encode_all_owed :
      (rs : List Rect) (s : Session State)
      → let s' = (encode_all encoders shared s rs).0 in
        (s'.pending ≡ s.pending) × (s'.copies ≡ s.copies) × HasSent s s'
  unfolding encode_all
  encode_all_owed [] s = (refl, refl, (refl, refl))
  encode_all_owed (r ∷ rs) s = encode_all_owed rs _

  put_update_owed :
      (s : Session State) (moves : List Move) (damage : Region) (pointer : Bytes)
      → let s' = (put_update encoders shared s moves damage pointer).1 in
        (s'.pending ≡ Bands.subtract s.pending damage) × (s'.copies ≡ s.copies) × HasSent s s'
  unfolding put_update counted
  put_update_owed s moves damage pointer =
      encode_all_owed (rects_of_update encoders shared s damage)
        (counted encoders shared s moves damage)

-- Why an update is not built: more rectangles than a `u16` counts, or a pointer of no width.
abbrev pub Stops :
    {State : Type 0} → Encoders State → Shared → Session State → List Move → Region → Type 0
Stops encoders shared s moves damage =
    (u16_mod - 1 < update_count encoders shared s moves (rects_of_update encoders shared s damage))
    ⊎ (cursor_bytes s (cursor_due s) ≡ none)

no_moves_lem : (ms : List Move) → no_moves ms ≡ true → ms ≡ []
no_moves_lem [] h = refl
no_moves_lem (m ∷ ms) h = cc

rects_to_send-empty : (damage : Region) → Bands.is_empty damage ≡ true → rects_to_send damage ≡ []
unfolding rects_to_send Bands.is_empty Bands.is_empty_list Bands.len Bands.bounds
rects_to_send-empty damage h = go damage.rects h
  where
    go :
        (rs : List Rect)
        → Bands.is_empty_list rs ≡ true
        → (if ltb 60_000 (length rs) then Bands.bounds (record { rects = rs }) ∷ [] else rs) ≡ []
    go [] e = refl
    go (r ∷ rs) e = cc

module _ {State Pixel : Type 0} (encoders : Encoders State) (shared : Shared) (bounds : Rect)
    (client screen : Picture Pixel) (s : Session State) (area : Rect)
    (k : Knows bounds client screen s.pending s.copies) where
  abbrev damage_of : Region
  damage_of = Bands.intersect_rect (keep_for_later area s.copies s.pending) area

  nothing_sent :
      no_moves (sendable area s.copies) ≡ true
      → Bands.is_empty damage_of ≡ true
      → Knows bounds client screen (keep_for_later area s.copies s.pending) []
  nothing_sent none_move no_damage =
      let kept = keep_for_later-Gives area s.copies s.pending k.normal in
      let all =
        delivered bounds client screen area s.copies s.pending _ kept.normal (λ x y p. inr p) k in
      let unchanged : after_update client screen area s.copies s.pending ≡ client =
        rw
          (no_moves_lem (sendable area s.copies) none_move, rects_to_send-empty damage_of no_damage)
          refl in
      rw (← unchanged) all

  something_sent :
      (pointer : Bytes)
      → let s' =
          (put_update encoders shared
            (split_copies s area)
            (sendable area s.copies)
            damage_of
            pointer).1 in
        Knows bounds
          (after_update client screen area s.copies s.pending)
          screen
          s'.pending
          s'.copies
  something_sent pointer =
      let kept = keep_for_later-Gives area s.copies s.pending k.normal in
      let hit = intersect_rect-Gives (keep_for_later area s.copies s.pending) area kept.normal in
      let left =
        subtract-Gives (keep_for_later area s.copies s.pending) damage_of kept.normal hit.normal in
      let owed =
        put_update_owed encoders shared (split_copies s area) (sendable area s.copies) damage_of
          pointer in
      rw (owed.0, owed.1)
        (delivered bounds client screen area s.copies s.pending _ left.normal
          (λ x y p.
            let e = left.points x y in
            elim (Bool-cases (Bands.contains_point damage_of x y)) [
              | inl on ↦ inl on
              | inr off ↦ inr (ground arith)
            ])
          k)

  -- Without an update, or for the client that has carried out what the bytes of the update say, the
  -- session knows its client; and it has sent nothing yet.
  abbrev pub Done : Served (Bool × Session State × Bytes) → Type 0
  Done (stopped why) =
      Stops encoders shared (split_copies s area) (sendable area s.copies) damage_of
  Done (served (false, s', out)) = Knows bounds client screen s'.pending s'.copies × HasSent s s'
  Done (served (true, s', out)) =
      (client' : Picture Pixel) × (Says encoders shared (split_copies s area) screen out client
          client'
        × (Knows bounds client' screen s'.pending s'.copies × HasSent s s'))

  written :
      (over : Bool) (pointer : Option Bytes)
      → IsCut encoders
      → ltb (u16_mod - 1) (
          update_count encoders shared
            (split_copies s area)
            (sendable area s.copies)
            (rects_of_update encoders shared (split_copies s area) damage_of))
        ≡ over
      → cursor_bytes (split_copies s area) (cursor_due (split_copies s area)) ≡ pointer
      → Done (write_update encoders shared (split_copies s area) (sendable area s.copies) damage_of)
  unfolding write_update
  written true pointer cut a b = rw a (inl (ground arith))
  written false none cut a b = rw (a, b) (inr b)
  written false (some pointer) cut a b =
      let moves = sendable area s.copies in
      let says =
        put_update-Says encoders shared (split_copies s area) screen moves damage_of pointer client
          cut (ground (arith, a)) b in
      let owed = put_update_owed encoders shared (split_copies s area) moves damage_of pointer in
      rw (a, b)
        (
          after_update client screen area s.copies s.pending,
          (says, (something_sent pointer, owed.2)),
        )

  pub fill_update-Knows : IsCut encoders → Done (fill_update encoders shared s area)
  unfolding fill_update
  fill_update-Knows cut =
      elim (Bool-cases (
        no_moves (sendable area s.copies)
        && (Bands.is_empty damage_of
            && (not (is_some (cursor_due (split_copies s area)))
                && not (layout_due (split_copies s area)))))) [
                  | inl none_due ↦
                      rw none_due (nothing_sent (ground arith) (ground arith), (refl, refl))
                  | inr due ↦ rw due (written _ _ cut refl refl)
                ]
