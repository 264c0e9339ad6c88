-- ===== src/Flow.antt =====
-- crates/alloyvnc/src/flow.rs: how much a client can be sent before waiting to hear from it.
-- A `Duration` and an `Instant` are numbers of nanoseconds, a `VecDeque` is a list from its front.
pub mod Bounds
pub mod Echo
pub mod Runs
mod Tests
use alloyvnc.Base.{
  ℕ, ◌+◌, ◌-◌, ◌*◌, ◌/◌, min, max, Bool, true, false, not, ◌&&◌, ◌||◌, Option, none, some, List, [],
  ◌∷◌, ◌++◌, length, ltb, leb, ◌==◌, if◌then◌else◌,
}
use alloyvnc.Base.Words.{add64}

abbrev pub Duration : Type 0
Duration = ℕ

abbrev pub Instant : Type 0
Instant = ℕ

abbrev pub from_millis : ℕ → Duration
from_millis n = n * 1_000_000

abbrev pub from_secs : ℕ → Duration
from_secs n = n * 1_000_000_000

abbrev pub minimum_window : ℕ
minimum_window = 16 * 1024

abbrev pub maximum_window : ℕ
maximum_window = 4 * 1024 * 1024

abbrev pub clear : Duration
clear = from_millis 25

abbrev pub queued : Duration
queued = from_millis 100

abbrev pub max_outstanding : ℕ
max_outstanding = 3

abbrev pub ping_bytes : ℕ
ping_bytes = 16 * 1024

abbrev pub ping_interval : Duration
ping_interval = from_millis 100

abbrev pub ping_timeout : Duration
ping_timeout = from_secs 5

abbrev pub base_lifetime : Duration
base_lifetime = from_secs 60

pub record Limits : Type 0 where
  pub initial_window : ℕ
  pub growth : ℕ

abbrev pub default_limits : Limits
default_limits = record { initial_window = 64 * 1024; growth = 4 * 1024 }

pub record Ping : Type 0 where
  pub seq : ℕ
  pub at_bytes : ℕ
  pub at : Instant

pub record Congestion : Type 0 where
  pub measured : Bool
  pub limits : Limits
  pub window : ℕ
  pub written : ℕ
  pub acked : ℕ
  pub last_update : ℕ
  pub pings : List Ping
  pub next_seq : ℕ
  pub last_ping : Option Instant
  pub last_ping_bytes : ℕ
  pub base : Option (Duration × Instant)
  pub rtt : Option Duration
  pub lost : ℕ

-- `clamp(MINIMUM_WINDOW, MAXIMUM_WINDOW)`
pub clamp_window : ℕ → ℕ
clamp_window w =
    if ltb w minimum_window
    then minimum_window
    else if ltb maximum_window w
    then maximum_window
    else w

unfoldable pub new : Limits → Congestion
unfolding clamp_window
new limits = record {
  measured = false;
  limits = limits;
  window = clamp_window limits.initial_window;
  written = 0;
  acked = 0;
  last_update = 0;
  pings = [];
  next_seq = 1;
  last_ping = none;
  last_ping_bytes = 0;
  base = none;
  rtt = none;
  lost = 0;
}

pub measure : Congestion → Congestion
measure c = record c { measured = true }

unfoldable pub in_flight : Congestion → ℕ
in_flight c = c.written - c.acked

pub base_rtt : Congestion → Option Duration
base_rtt c = elim c.base [ none ↦ none | some (d, at) ↦ some d ]

pub outstanding : Congestion → ℕ
outstanding c = length c.pings

-- The sum of a `u64` flight and a `u64` update wraps.
unfoldable pub may_send : Congestion → Bool
unfolding in_flight
may_send c =
    if not c.measured
    then true
    else in_flight c == 0 || leb (add64 (in_flight c) c.last_update) c.window

pub wrote : Congestion → ℕ → Congestion
wrote c bytes = record c { written = add64 c.written bytes; last_update = bytes }

-- `last_ping.is_none_or(|t| now.saturating_duration_since(t) >= PING_INTERVAL)`
pub interval_passed : Option Instant → Instant → Bool
interval_passed none now = true
interval_passed (some t) now = leb ping_interval (now - t)

pub ping_due : Congestion → Instant → Bool
unfolding interval_passed
ping_due c now =
    if not c.measured || leb max_outstanding (length c.pings)
    then false
    else leb ping_bytes (c.written - c.last_ping_bytes) || interval_passed c.last_ping now

-- The sequence number comes back beside the new state.
pub ping : Congestion → Instant → ℕ × Congestion
ping c now = (
  c.next_seq,
  record c {
    next_seq = add64 c.next_seq 1;
    pings = c.pings ++ record { seq = c.next_seq; at_bytes = c.written; at = now } ∷ [];
    last_ping = some now;
    last_ping_bytes = c.written;
  },
)

-- `position` and `drain(..=position)`: the ping found, and what stays behind it.
pub drain_to : ℕ → List Ping → Option (Ping × List Ping)
drain_to seq [] = none
drain_to seq (p ∷ ps) = let rest = drain_to seq ps in if p.seq == seq then some (p, ps) else rest

-- Where one measurement moves the window, before it is held to its limits.
pub moved_window : Congestion → Duration → ℕ
unfolding base_rtt
moved_window c sample =
    let base : ℕ = elim (base_rtt c) [ none ↦ sample | some d ↦ d ] in
    let over : ℕ = sample - base in
    if ltb over clear
    then add64 c.window c.limits.growth
    else if ltb queued over
    then c.window / 2
    else c.window

pub resize : Congestion → Duration → Congestion
unfolding clamp_window moved_window
resize c sample = record c { window = clamp_window (moved_window c sample) }

-- Seven eighths of the old and an eighth of the new.
pub smooth : Option Duration → Duration → Duration
smooth none sample = sample
smooth (some old) sample = (old * 7 + sample) / 8

pub is_stale : Option (Duration × Instant) → Duration → Instant → Bool
is_stale none sample now = true
is_stale (some (d, at)) sample now = ltb sample d || ltb base_lifetime (now - at)

-- The end of `pong`, with the ping that was drained last and those that are left.
pub answer : Congestion → Instant → Option (Ping × List Ping) → Bool × Congestion
unfolding resize smooth is_stale
answer c now none = (false, c)
answer c now (some (found, rest)) =
    let sample : ℕ = now - found.at in
    let stale : Bool = is_stale c.base sample now in
    let confirmed : Congestion = record c {
      pings = rest;
      acked = max c.acked found.at_bytes;
      rtt = some (smooth c.rtt sample);
      base = if stale then some (sample, now) else c.base;
    } in
    (true, resize confirmed sample)

pub pong : Congestion → ℕ → Instant → Bool × Congestion
unfolding drain_to answer
pong c seq now = answer c now (drain_to seq c.pings)

-- The pings that stay, and how many were popped.
pub expire_pings : List Ping → Instant → List Ping × ℕ
expire_pings [] now = ([], 0)
expire_pings (p ∷ ps) now =
    let rest = expire_pings ps now in
    if leb (now - p.at) ping_timeout then (p ∷ ps, 0) else (rest.0, rest.1 + 1)

pub expire : Congestion → Instant → Congestion
unfolding expire_pings
expire c now =
    let (kept, gone) = expire_pings c.pings now in
    record c { pings = kept; lost = add64 c.lost gone }
