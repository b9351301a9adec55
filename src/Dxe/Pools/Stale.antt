-- ===== src/Dxe/Pools/Stale.antt =====
-- The pools over a start, a stop and a second start.
use wcn36xx.Common.{
  ℕ, ◌≡◌, ◌≢◌, refl, sym, false, Option, none, some, List, [], ◌∷◌, ◌==◌, ==_refl, ok, arith,
}
use wcn36xx.Dxe.Init.{Pool}
use wcn36xx.Dxe.Pools.{
  PoolMem, chunk_size, contains, free_pool, free_mem_pools, pools_out_err, no_memory, alloc_data,
  alloc_mgmt, allocate_mem_pools,
}

-- Pools with memory at `p` and `q`.
abbrev pub filled : ℕ → ℕ → ℕ → ℕ → PoolMem → PoolMem
filled p a q b m = record m {
  mgmt = record { chunk_size = chunk_size; virt_addr = p; phy_addr = a };
  data_pool = record { chunk_size = chunk_size; virt_addr = q; phy_addr = b };
}

differ : (a b : ℕ) → a ≢ b → (a == b) ≡ false
differ a b h = ground arith

pub allocated :
    (m : PoolMem) (p a q b : ℕ) (rest : List (Option (ℕ × ℕ)))
    → m.allocs ≡ some (p, a) ∷ some (q, b) ∷ rest
    → allocate_mem_pools m
      ≡ some (ok, record (filled p a q b m) { live = q ∷ p ∷ m.live; allocs = rest })
unfolding allocate_mem_pools alloc_mgmt alloc_data
allocated m p a q b rest e = rw e refl

abbrev pool : ℕ → ℕ → Pool
pool p a = record { chunk_size = chunk_size; virt_addr = p; phy_addr = a }

free_second :
    (p a q : ℕ) (live : List ℕ)
    → p ≢ 0
    → q ≢ p
    → free_pool (pool p a) (q ∷ p ∷ live) ≡ some (q ∷ live)
unfolding free_pool
free_second p a q live np ne = rw (differ p 0 np, differ q p ne, ==_refl p) refl

free_first : (q b : ℕ) (live : List ℕ) → q ≢ 0 → free_pool (pool q b) (q ∷ live) ≡ some live
unfolding free_pool
free_first q b live nq = rw (differ q 0 nq, ==_refl q) refl

free_gone :
    (p a : ℕ) (live : List ℕ) → p ≢ 0 → contains p live ≡ false → free_pool (pool p a) live ≡ none
unfolding free_pool
free_gone p a live np new = rw (differ p 0 np, new) refl

pub freed :
    (m : PoolMem) (p a q b : ℕ) (rest : List (Option (ℕ × ℕ)))
    → p ≢ 0
    → q ≢ 0
    → p ≢ q
    → free_mem_pools (record (filled p a q b m) { live = q ∷ p ∷ m.live; allocs = rest })
      ≡ some (record (filled p a q b m) { live = m.live; allocs = rest })
unfolding free_mem_pools
freed m p a q b rest np nq ne =
    rw (free_second p a q m.live np (λ e. ne (sym e)), free_first q b m.live nq) refl

faults :
    (m : PoolMem) (p a : ℕ)
    → m.mgmt ≡ pool p a
    → p ≢ 0
    → contains p m.live ≡ false
    → pools_out_err m ≡ none
unfolding pools_out_err free_mem_pools no_memory
faults m p a e np new = rw (e, free_gone p a m.live np new) refl

again :
    (m : PoolMem) (p a q b : ℕ)
    → p ≢ 0
    → contains p m.live ≡ false
    → allocate_mem_pools (record (filled p a q b m) { live = m.live; allocs = [] }) ≡ none
unfolding allocate_mem_pools alloc_mgmt
again m p a q b np new =
    faults (record (filled p a q b m) { live = m.live; allocs = [] }) p a refl np new

-- With memory for both pools, at different addresses that are not null, the first one not in use:
-- the call returns 0 and leaves both allocated; freeing them leaves just the memory from before,
-- but the pools keep the addresses; so when a later call gets no memory, it frees the management
-- pool a second time.
pub allocate_mem_pools-free_mem_pools :
    (m : PoolMem) (p a q b : ℕ) (rest : List (Option (ℕ × ℕ)))
    → m.allocs ≡ some (p, a) ∷ some (q, b) ∷ rest
    → p ≢ 0
    → q ≢ 0
    → p ≢ q
    → contains p m.live ≡ false
    → (allocate_mem_pools m
        ≡ some (ok, record (filled p a q b m) { live = q ∷ p ∷ m.live; allocs = rest }))
      × (free_mem_pools (record (filled p a q b m) { live = q ∷ p ∷ m.live; allocs = rest })
          ≡ some (record (filled p a q b m) { live = m.live; allocs = rest }))
      × (allocate_mem_pools (record (filled p a q b m) { live = m.live; allocs = [] }) ≡ none)
allocate_mem_pools-free_mem_pools m p a q b rest e np nq ne new =
    (allocated m p a q b rest e, freed m p a q b rest np nq ne, again m p a q b np new)
