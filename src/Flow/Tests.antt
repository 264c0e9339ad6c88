-- ===== src/Flow/Tests.antt =====
-- Runs of the congestion window, and the theorems at concrete states.
use alloyvnc.Base.{◌+◌, ◌<◌, ◌≡◌, refl, true, false, some, [], ◌∷◌, ◌++◌, length, All, List, arith}
use alloyvnc.Base.Words.{u64_mod}
use alloyvnc.Flow.{
  Ping, Congestion, default_limits, new, measure, wrote, ping, pong, expire, in_flight, outstanding,
  ping_due, from_millis, from_secs,
}
use alloyvnc.Flow.Bounds.{IsSound, here, after, measuring, pinging, echoing, Reach-IsSound}
use alloyvnc.Flow.Echo.{is_open, pong-is_open, pong-pong, pong-wrote-ping}
use alloyvnc.Flow.Runs.{expire_lem, IsOld, IsYoung}

abbrev two_open : Congestion
two_open = record {
  measured = true;
  limits = default_limits;
  window = 65536;
  written = 2000;
  acked = 0;
  last_update = 1000;
  pings =
      record { seq = 1; at_bytes = 1000; at = 0 }
      ∷ record { seq = 2; at_bytes = 2000; at = 10 }
      ∷ [];
  next_seq = 3;
  last_ping = some 10;
  last_ping_bytes = 2000;
  base = some (from_millis 5, 0);
  rtt = some (from_millis 5);
  lost = 0;
}

two_open-IsSound : IsSound two_open
two_open-IsSound = omega arith

pong_both : outstanding (pong two_open 2 (from_millis 5)).1 ≡ 0
unfolding pong outstanding
pong_both = refl

first_due : ping_due (measure (new default_limits)) 7 ≡ true
unfolding ping_due measure new
first_due = refl

new_fits : (measure (new default_limits)).next_seq + 1 < u64_mod
unfolding measure new
new_fits = omega arith

Reach-IsSound_example : IsSound (pong (ping (measure (new default_limits)) 7).1 1 9).1
Reach-IsSound_example = Reach-IsSound default_limits (
    after
      (after (after here (measuring (new default_limits)))
        (pinging (measure (new default_limits)) 7 first_due new_fits))
      (echoing (ping (measure (new default_limits)) 7).1 1 9))

pong-is_open_example :
    ((pong two_open 2 20).0 ≡ is_open 2 two_open.pings)
    × (is_open 2 two_open.pings ≡ false → pong two_open 2 20 ≡ (false, two_open))
pong-is_open_example = pong-is_open two_open 2 20

two_taken : (pong two_open 2 20).0 ≡ true
unfolding pong
two_taken = refl

pong-pong_example : pong (pong two_open 2 20).1 1 30 ≡ (false, (pong two_open 2 20).1)
pong-pong_example = pong-pong two_open 2 1 20 30 two_open-IsSound two_taken (omega arith)

pong-wrote-ping_example :
    ((pong (wrote (ping two_open 40).1 500) (ping two_open 40).0 50).0 ≡ true)
    × (in_flight (pong (wrote (ping two_open 40).1 500) (ping two_open 40).0 50).1 ≡ 500)
    × (outstanding (pong (wrote (ping two_open 40).1 500) (ping two_open 40).0 50).1 ≡ 0)
pong-wrote-ping_example = pong-wrote-ping two_open 40 50 500 two_open-IsSound (omega arith)

two_flight : in_flight two_open + two_open.last_update < u64_mod
unfolding in_flight
two_flight = omega arith

two_lost : two_open.lost + outstanding two_open < u64_mod
unfolding outstanding
two_lost = omega arith

expire_lem_example :
    (gone : List Ping) × (two_open.pings ≡ gone ++ (expire two_open (from_secs 6)).pings)
    × All (IsOld (from_secs 6)) gone
    × All (IsYoung (from_secs 6)) (expire two_open (from_secs 6)).pings
    × ((expire two_open (from_secs 6)).lost ≡ two_open.lost + length gone)
    × (in_flight (expire two_open (from_secs 6)) ≡ in_flight two_open)
expire_lem_example = expire_lem two_open 0 (from_secs 6) (omega arith) two_lost
