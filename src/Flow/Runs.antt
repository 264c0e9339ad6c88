-- ===== src/Flow/Runs.antt =====
-- What `expire` writes off (`expire` of crates/alloyvnc/src/flow.rs).
use alloyvnc.Base.{
  ◌+◌, ◌-◌, ◌≤◌, ◌<◌, ◌≡◌, refl, inl, inr, Bool-cases, List, [], ◌∷◌, ◌++◌, length, All,
  length-append, ap, arith, leb, leb→le, leb→lt,
}
use alloyvnc.Base.Words.{u64_mod}
use alloyvnc.Flow.{
  Ping, Congestion, Instant, ping_timeout, expire_pings, expire, in_flight, outstanding,
}

-- The pings were sent one after the other, none before `at`.
abbrev pub InTime : Instant → List Ping → Type 0
InTime at [] = Unit
InTime at (p ∷ ps) = (at ≤ p.at) × InTime p.at ps

abbrev pub IsOld : Instant → Ping → Type 0
IsOld now p = ping_timeout < now - p.at

abbrev pub IsYoung : Instant → Ping → Type 0
IsYoung now p = now - p.at ≤ ping_timeout

IsYoung-from :
    (now at : Instant) (ps : List Ping)
    → now - at ≤ ping_timeout
    → InTime at ps
    → All (IsYoung now) ps
IsYoung-from now at [] h t = tt
IsYoung-from now at (p ∷ ps) h t = (omega arith, IsYoung-from now p.at ps (omega arith) t.1)

expire_pings_lem :
    (ps : List Ping) (at now : Instant)
    → InTime at ps
    → (gone : List Ping) × (ps ≡ gone ++ (expire_pings ps now).0)
      × (length gone ≡ (expire_pings ps now).1)
      × All (IsOld now) gone
      × All (IsYoung now) (expire_pings ps now).0
unfolding expire_pings
expire_pings_lem [] at now t = ([], refl, refl, tt, tt)
expire_pings_lem (p ∷ ps) at now t = elim (Bool-cases (leb (now - p.at) ping_timeout)) [
  | inl young ↦
      rw young
        ([], refl, refl, tt, (leb→le _ _ young, IsYoung-from now p.at ps (leb→le _ _ young) t.1))
  | inr old ↦
      let (gone, whole, count, aged, kept) = expire_pings_lem ps p.at now t.1 in
      rw old (p ∷ gone, cc, omega arith, (leb→lt _ _ old, aged), kept)
]

-- Round trips older than five seconds are written off, and no others: they are the front of the
-- queue, they are counted as lost, and their bytes stay in flight.
pub expire_lem :
    (c : Congestion) (at now : Instant)
    → InTime at c.pings
    → c.lost + outstanding c < u64_mod
    → (gone : List Ping) × (c.pings ≡ gone ++ (expire c now).pings)
      × All (IsOld now) gone
      × All (IsYoung now) (expire c now).pings
      × ((expire c now).lost ≡ c.lost + length gone)
      × (in_flight (expire c now) ≡ in_flight c)
unfolding expire in_flight outstanding
expire_lem c at now t fits =
    let (gone, whole, count, aged, kept) = expire_pings_lem c.pings at now t in
    let sizes = length-append gone (expire_pings c.pings now).0 in
    (gone, whole, aged, kept, omega (arith, ap length whole, sizes, count), refl)
