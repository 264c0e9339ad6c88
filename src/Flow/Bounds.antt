-- ===== src/Flow/Bounds.antt =====
-- The invariant of a `Congestion` (crates/alloyvnc/src/flow.rs), and the steps a session makes.
use alloyvnc.Base.{
  ℕ, ◌+◌, ◌-◌, ◌≤◌, ◌<◌, max, ◌≡◌, refl, inl, inr, true, Bool-cases, Option, none, some, List, [],
  ◌∷◌, ◌++◌, length, length-append, arith, ◌==◌, ==→≡, leb,
}
use alloyvnc.Base.Words.{u64_mod, add64}
use alloyvnc.Flow.{
  Limits, Ping, Congestion, Instant, minimum_window, maximum_window, max_outstanding, ping_timeout,
  clamp_window, new, measure, wrote, ping_due, ping, drain_to, answer, pong, expire_pings, expire,
}

-- The pings stand in the order in which they were sent: their numbers rise from `lo` to below
-- `next`, and the bytes that they confirm rise from `low` to `high`.
abbrev pub InOrder : ℕ → ℕ → List Ping → ℕ → ℕ → Type 0
InOrder lo low [] next high = (lo ≤ next) × (low ≤ high)
InOrder lo low (p ∷ ps) next high =
    (lo ≤ p.seq) × (low ≤ p.at_bytes) × InOrder (p.seq + 1) p.at_bytes ps next high

pub record IsSound (c : Congestion) : Type 0 where
  pub floor : minimum_window ≤ c.window
  pub ceiling : c.window ≤ maximum_window
  pub pings : InOrder 0 c.acked c.pings c.next_seq c.written
  pub few : length c.pings ≤ max_outstanding

-- What a session does with a `Congestion`: it starts a round trip only if one is due, and no
-- counter comes to 2 ^ 64.
pub data Step : Congestion → Congestion → Type 0 where
  measuring : (c : Congestion) → Step c (measure c)
  writing : (c : Congestion) (bytes : ℕ) → c.written + bytes < u64_mod → Step c (wrote c bytes)
  pinging :
      (c : Congestion) (now : Instant)
      → ping_due c now ≡ true
      → c.next_seq + 1 < u64_mod
      → Step c (ping c now).1
  echoing : (c : Congestion) (seq : ℕ) (now : Instant) → Step c (pong c seq now).1
  expiring : (c : Congestion) (now : Instant) → Step c (expire c now)

pub data Reach (c : Congestion) : Congestion → Type 0 where
  here : Reach c c
  after : {d e : Congestion} → Reach c d → Step d e → Reach c e

-- The bounds of the list of pings hold for larger counters, and for smaller lower ends.
pub InOrder-widen :
    (ps : List Ping) (lo lo' low low' next high high' : ℕ)
    → lo' ≤ lo
    → low' ≤ low
    → high ≤ high'
    → InOrder lo low ps next high
    → InOrder lo' low' ps next high'
InOrder-widen [] lo lo' low low' next high high' a b c h = omega arith
InOrder-widen (p ∷ ps) lo lo' low low' next high high' a b c h = (
  omega arith,
  omega arith,
  InOrder-widen ps (p.seq + 1) (p.seq + 1) p.at_bytes p.at_bytes next high high' (omega arith)
      (omega arith) c h.2,
)

pub InOrder-append :
    (ps : List Ping) (lo low next high : ℕ) (at : Instant)
    → InOrder lo low ps next high
    → InOrder lo low (ps ++ record { seq = next; at_bytes = high; at = at } ∷ []) (next + 1) high
InOrder-append [] lo low next high at h = omega arith
InOrder-append (p ∷ ps) lo low next high at h =
    (h.0, h.1, InOrder-append ps (p.seq + 1) p.at_bytes next high at h.2)

pub InOrder-ends :
    (ps : List Ping) (lo low next high : ℕ)
    → InOrder lo low ps next high
    → (lo ≤ next) × (low ≤ high)
InOrder-ends [] lo low next high h = h
InOrder-ends (p ∷ ps) lo low next high h =
    omega (arith, InOrder-ends ps (p.seq + 1) p.at_bytes next high h.2)

-- The ping found bears the number, and what is left comes after it.
pub drain_to-InOrder :
    (seq : ℕ) (ps : List Ping) (lo low next high : ℕ) {found : Ping} {rest : List Ping}
    → drain_to seq ps ≡ some (found, rest)
    → InOrder lo low ps next high
    → (found.seq ≡ seq)
      × (lo ≤ seq)
      × (low ≤ found.at_bytes)
      × InOrder (seq + 1) found.at_bytes rest next high
      × (length rest + 1 ≤ length ps)
unfolding drain_to
drain_to-InOrder seq [] lo low next high e h = ground arith
drain_to-InOrder seq (p ∷ ps) lo low next high {found} {rest} e h =
    elim (Bool-cases (p.seq == seq)) [
      | inl same ↦
          let e' : some (p, ps) ≡ some (found, rest) = rw same at e in
          ground (arith, ==→≡ p.seq seq same)
      | inr other ↦
          let e' : drain_to seq ps ≡ some (found, rest) = rw other at e in
          let later = drain_to-InOrder seq ps (p.seq + 1) p.at_bytes next high e' h.2 in
          (later.0, omega arith, omega arith, later.3, omega arith)
    ]

pub clamp_window_bounds :
    (w : ℕ) → (minimum_window ≤ clamp_window w) × (clamp_window w ≤ maximum_window)
unfolding clamp_window
clamp_window_bounds w = ground arith

new-IsSound : (limits : Limits) → IsSound (new limits)
unfolding new
new-IsSound limits = omega (arith, clamp_window_bounds limits.initial_window)

wrote-IsSound :
    (c : Congestion) (bytes : ℕ) → c.written + bytes < u64_mod → IsSound c → IsSound (wrote c bytes)
unfolding wrote
wrote-IsSound c bytes fits h = record {
  floor = h.floor;
  ceiling = h.ceiling;
  pings =
      InOrder-widen c.pings 0 0 c.acked c.acked c.next_seq c.written (add64 c.written bytes)
        (omega arith) (omega arith) (omega arith) h.pings;
  few = h.few;
}

ping-IsSound :
    (c : Congestion) (now : Instant)
    → ping_due c now ≡ true
    → c.next_seq + 1 < u64_mod
    → IsSound c
    → IsSound (ping c now).1
unfolding ping ping_due
ping-IsSound c now due fits h = record {
  floor = h.floor;
  ceiling = h.ceiling;
  pings =
      let e : add64 c.next_seq 1 ≡ c.next_seq + 1 = omega arith in
      rw e (InOrder-append c.pings 0 c.acked c.next_seq c.written now h.pings);
  few = ground (arith, length-append c.pings (sent ∷ []));
}
  where
    sent : Ping
    sent = record { seq = c.next_seq; at_bytes = c.written; at = now }

answer-IsSound :
    (c : Congestion) (seq : ℕ) (now : Instant) (o : Option (Ping × List Ping))
    → drain_to seq c.pings ≡ o
    → IsSound c
    → IsSound (answer c now o).1
unfolding answer
answer-IsSound c seq now none e h = h
answer-IsSound c seq now (some (found, rest)) e h =
    let d = drain_to-InOrder seq c.pings 0 c.acked c.next_seq c.written e h.pings in
    record {
      floor = grind (arith, clamp_window_bounds);
      ceiling = grind (arith, clamp_window_bounds);
      pings =
          InOrder-widen rest (seq + 1) 0 found.at_bytes (max c.acked found.at_bytes) c.next_seq
            c.written c.written (omega arith) (omega (arith, d.2)) (omega arith) d.3;
      few = omega (arith, d.4, h.few);
    }

pong-IsSound : (c : Congestion) (seq : ℕ) (now : Instant) → IsSound c → IsSound (pong c seq now).1
unfolding pong
pong-IsSound c seq now h = answer-IsSound c seq now (drain_to seq c.pings) refl h

expire_pings-InOrder :
    (ps : List Ping) (now : Instant) (lo low next high : ℕ)
    → InOrder lo low ps next high
    → InOrder lo low (expire_pings ps now).0 next high
      × (length (expire_pings ps now).0 ≤ length ps)
unfolding expire_pings
expire_pings-InOrder [] now lo low next high h = (h, omega arith)
expire_pings-InOrder (p ∷ ps) now lo low next high h =
    elim (Bool-cases (leb (now - p.at) ping_timeout)) [
      | inl young ↦ rw young (h, omega arith)
      | inr old ↦
          let wide =
            InOrder-widen ps (p.seq + 1) lo p.at_bytes low next high high (omega arith)
              (omega arith) (omega arith) h.2 in
          let ih = expire_pings-InOrder ps now lo low next high wide in
          rw old (ih.0, omega (arith, ih.1))
    ]

expire-IsSound : (c : Congestion) (now : Instant) → IsSound c → IsSound (expire c now)
unfolding expire
expire-IsSound c now h =
    let kept = expire_pings-InOrder c.pings now 0 c.acked c.next_seq c.written h.pings in
    record {
      floor = h.floor;
      ceiling = h.ceiling;
      pings = kept.0;
      few = omega (arith, kept.1, h.few);
    }

Step-IsSound : {c d : Congestion} → Step c d → IsSound c → IsSound d
unfolding measure
Step-IsSound (measuring c) h = record {
  floor = h.floor;
  ceiling = h.ceiling;
  pings = h.pings;
  few = h.few;
}
Step-IsSound (writing c bytes fits) h = wrote-IsSound c bytes fits h
Step-IsSound (pinging c now due fits) h = ping-IsSound c now due fits h
Step-IsSound (echoing c seq now) h = pong-IsSound c seq now h
Step-IsSound (expiring c now) h = expire-IsSound c now h

-- Whatever a session does with a new `Congestion`, while no counter comes to 2 ^ 64 and a round
-- trip is started only if one is due: the window stays between its two limits, the open round
-- trips are in the order of their numbers and of the bytes that they confirm, which lie between
-- the confirmed and the written ones, and there are at most three of them.
pub Reach-IsSound : (limits : Limits) {c : Congestion} → Reach (new limits) c → IsSound c
Reach-IsSound limits here = new-IsSound limits
Reach-IsSound limits (after r st) = Step-IsSound st (Reach-IsSound limits r)
