-- ===== src/Dxe/Pools/Tests.antt =====
-- Runs of the pools.
use wcn36xx.Common.{◌≡◌, refl, none, some, [], ◌∷◌, ok, arith}
use wcn36xx.Dxe.Pools.{PoolMem, free_mem_pools, allocate_mem_pools}
use wcn36xx.Dxe.Pools.Stale.{filled, allocate_mem_pools-free_mem_pools}

abbrev fresh : PoolMem
fresh = record {
  mgmt = record { chunk_size = 0; virt_addr = 0; phy_addr = 0 };
  data_pool = record { chunk_size = 0; virt_addr = 0; phy_addr = 0 };
  live = 7 ∷ [];
  allocs = some (4096, 64) ∷ some (8192, 128) ∷ [];
}

allocate_mem_pools-free_mem_pools_example :
    (allocate_mem_pools fresh
      ≡ some
          (ok, record (filled 4096 64 8192 128 fresh) { live = 8192 ∷ 4096 ∷ 7 ∷ []; allocs = [] }))
    × (free_mem_pools
          (record (filled 4096 64 8192 128 fresh) { live = 8192 ∷ 4096 ∷ 7 ∷ []; allocs = [] })
        ≡ some (record (filled 4096 64 8192 128 fresh) { live = 7 ∷ []; allocs = [] }))
    × (allocate_mem_pools (record (filled 4096 64 8192 128 fresh) { live = 7 ∷ []; allocs = [] })
        ≡ none)
allocate_mem_pools-free_mem_pools_example =
    allocate_mem_pools-free_mem_pools fresh 4096 64 8192 128 [] refl (λ e. omega arith)
      (λ e. omega arith) (λ e. omega arith) refl
