-- ===== src/Launch/Ledger/Evict.antt =====
-- The bound on the tombstones: the oldest are dropped.
use agent_host.Common.{ℕ, ◌≤◌, String, [], ◌∷◌, arith, length}
use agent_host.Common.Maps.{Map, Keys, AllEntries, total}
use agent_host.Launch.Ledger.{Retirement, max_retirements}
use agent_host.Launch.Ledger.Retire.{evict}

pub length-evict : (m : Map Retirement) → length (evict m) ≤ max_retirements
unfolding evict
length-evict [] = omega arith
length-evict (e ∷ m) = ground (arith, length-evict m)

pub total-evict-le : (f : Retirement → ℕ) (m : Map Retirement) → total f (evict m) ≤ total f m
unfolding evict total
total-evict-le f [] = omega arith
total-evict-le f ((j, t) ∷ m) = ground (arith, total-evict-le f m)

pub evict-Keys : (m : Map Retirement) → Keys m → Keys (evict m)
unfolding evict
evict-Keys [] h = tt
evict-Keys ((j, t) ∷ m) h = ground (arith, evict-Keys m h.1)

pub evict-AllEntries :
    (P : String → Retirement → Type 0) (m : Map Retirement)
    → AllEntries P m
    → AllEntries P (evict m)
unfolding evict
evict-AllEntries P [] h = tt
evict-AllEntries P ((j, t) ∷ m) h = ground (arith, evict-AllEntries P m h.1)
