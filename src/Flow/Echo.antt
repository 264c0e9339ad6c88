-- ===== src/Flow/Echo.antt =====
-- What an echo confirms (`pong` of crates/alloyvnc/src/flow.rs).
use alloyvnc.Base.{
  ℕ, ◌+◌, ◌≤◌, ◌<◌, max, ◌≡◌, refl, ◌↔◌, ◌⊎◌, ap, ◌∙◌, true, false, Bool, Option, none, some, List,
  [], ◌∷◌, ◌++◌, any, arith, ◌==◌,
}
use alloyvnc.Base.Words.{u64_mod}
use alloyvnc.Flow.{
  Ping, Congestion, Instant, drain_to, answer, pong, ping, wrote, in_flight, may_send, outstanding,
}
use alloyvnc.Flow.Bounds.{IsSound, InOrder, drain_to-InOrder, InOrder-ends}

-- Some open round trip bears the number.
abbrev pub is_open : ℕ → List Ping → Bool
is_open seq = any (λ p. p.seq == seq)

abbrev is_some : Option (Ping × List Ping) → Bool
is_some none = false
is_some (some r) = true

drain_to-is_open : (seq : ℕ) (ps : List Ping) → is_some (drain_to seq ps) ≡ is_open seq ps
unfolding drain_to
drain_to-is_open seq [] = refl
drain_to-is_open seq (p ∷ ps) = ground (arith, drain_to-is_open seq ps)

answer_taken :
    (c : Congestion) (now : Instant) (o : Option (Ping × List Ping))
    → ((answer c now o).0 ≡ is_some o) × (is_some o ≡ false → answer c now o ≡ (false, c))
unfolding answer
answer_taken c now none = (refl, λ _. refl)
answer_taken c now (some r) = (refl, λ e. cc)

-- An echo is taken exactly if its number is that of an open round trip; any other changes nothing.
pub pong-is_open :
    (c : Congestion) (seq : ℕ) (now : Instant)
    → ((pong c seq now).0 ≡ is_open seq c.pings)
      × (is_open seq c.pings ≡ false → pong c seq now ≡ (false, c))
unfolding pong
pong-is_open c seq now =
    let t = answer_taken c now (drain_to seq c.pings) in
    let o = drain_to-is_open seq c.pings in (t.0 ∙ o, λ shut. t.1 (o ∙ shut))

drain_to_early :
    (seq lo low next high : ℕ) (ps : List Ping)
    → seq < lo
    → InOrder lo low ps next high
    → drain_to seq ps ≡ none
unfolding drain_to
drain_to_early seq lo low next high [] h o = refl
drain_to_early seq lo low next high (p ∷ ps) h o =
    ground (arith, drain_to_early seq (p.seq + 1) p.at_bytes next high ps)

answer_pings :
    (c : Congestion) (now : Instant) (found : Ping) (rest : List Ping)
    → ((answer c now (some (found, rest))).1.pings ≡ rest)
      × ((answer c now (some (found, rest))).1.acked ≡ max c.acked found.at_bytes)
      × ((answer c now (some (found, rest))).1.written ≡ c.written)
unfolding answer
answer_pings c now found rest = (refl, refl, refl)

pong_earlier :
    (c : Congestion) (seq earlier : ℕ) (now later : Instant) (o : Option (Ping × List Ping))
    → drain_to seq c.pings ≡ o
    → IsSound c
    → (answer c now o).0 ≡ true
    → earlier ≤ seq
    → drain_to earlier (answer c now o).1.pings ≡ none
unfolding answer
pong_earlier c seq earlier now later none e h taken le = cc
pong_earlier c seq earlier now later (some (found, rest)) e h taken le =
    let d = drain_to-InOrder seq c.pings 0 c.acked c.next_seq c.written e h.pings in
    drain_to_early earlier (seq + 1) found.at_bytes c.next_seq c.written rest (omega arith) d.3

-- The echo of a fence answers every fence before it as well: once it is taken, an echo of that
-- number or of a smaller one is refused and changes nothing.
pub pong-pong :
    (c : Congestion) (seq earlier : ℕ) (now later : Instant)
    → IsSound c
    → (pong c seq now).0 ≡ true
    → earlier ≤ seq
    → pong (pong c seq now).1 earlier later ≡ (false, (pong c seq now).1)
unfolding pong
pong-pong c seq earlier now later h taken le =
    (answer_taken (pong c seq now).1 later _).1
      (ap is_some (pong_earlier c seq earlier now later (drain_to seq c.pings) refl h taken le))

drain_to_last :
    (ps : List Ping) (p : Ping) (lo low high : ℕ)
    → InOrder lo low ps p.seq high
    → drain_to p.seq (ps ++ p ∷ []) ≡ some (p, [])
unfolding drain_to
drain_to_last [] p lo low high o = ground arith
drain_to_last (q ∷ ps) p lo low high o = ground (
  arith,
  InOrder-ends ps (q.seq + 1) q.at_bytes p.seq high,
  drain_to_last ps p (q.seq + 1) q.at_bytes high,
)

-- A round trip that is started and echoed confirms all that was written before it and nothing of
-- what was written after it: `bytes` stay in flight, and no round trip stays open.
pub pong-wrote-ping :
    (c : Congestion) (now later : Instant) (bytes : ℕ)
    → IsSound c
    → c.written + bytes < u64_mod
    → ((pong (wrote (ping c now).1 bytes) (ping c now).0 later).0 ≡ true)
      × (in_flight (pong (wrote (ping c now).1 bytes) (ping c now).0 later).1 ≡ bytes)
      × (outstanding (pong (wrote (ping c now).1 bytes) (ping c now).0 later).1 ≡ 0)
unfolding pong ping wrote in_flight outstanding answer
pong-wrote-ping c now later bytes h fits =
    let sent : Ping = record { seq = c.next_seq; at_bytes = c.written; at = now } in
    let e = drain_to_last c.pings sent 0 c.acked c.written h.pings in
    let ends = InOrder-ends c.pings 0 c.acked c.next_seq c.written h.pings in
    rw e (refl, omega arith, refl)

-- An update may go out exactly if the client cannot be measured, has answered everything, or has
-- room in its window for one more of the last size; and where updates are let go only so, what is
-- in flight after one is at most the window and that update's bytes.
pub may_send_lem :
    (c : Congestion)
    → IsSound c
    → in_flight c + c.last_update < u64_mod
    → ((may_send c ≡ true)
        ↔ ((c.measured ≡ false) ⊎ ((in_flight c ≡ 0) ⊎ (in_flight c + c.last_update ≤ c.window))))
      × ((bytes : ℕ)
          → c.written + bytes < u64_mod
          → c.measured ≡ true
          → may_send c ≡ true
          → in_flight (wrote c bytes) ≤ c.window + bytes)
unfolding may_send in_flight wrote
may_send_lem c h fits = (ground arith, λ bytes room m sent. ground arith)
