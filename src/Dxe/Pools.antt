-- ===== src/Dxe/Pools.antt =====
-- The memory of the buffer descriptors: `wcn36xx_dxe_allocate_mem_pools` and
-- `wcn36xx_dxe_free_mem_pools` of dxe.c. Freeing memory that is not allocated has no result.
pub mod Stale
mod Tests
use wcn36xx.Common.{
  ℕ, ◌+◌, ◌-◌, ◌%◌, Bool, false, ◌||◌, Option, none, some, List, [], ◌∷◌, ◌==◌, if◌then◌else◌, Ret,
  ok, err, enomem,
}
use wcn36xx.Dxe.Init.{Pool}

-- The two pools, the addresses of the coherent memory that is allocated, and what the coming calls of
-- `dma_alloc_coherent` give: an address with its bus address, or nothing. A null pointer is 0.
pub record PoolMem : Type 0 where
  pub mgmt : Pool
  pub data_pool : Pool
  pub live : List ℕ
  pub allocs : List (Option (ℕ × ℕ))

-- `WCN36XX_BD_CHUNK_SIZE + 16 - (WCN36XX_BD_CHUNK_SIZE % 8)`
abbrev pub chunk_size : ℕ
chunk_size = 128 + 16 - 128 % 8

abbrev pub contains : ℕ → List ℕ → Bool
contains p [] = false
contains p (x ∷ xs) = x == p || contains p xs

abbrev pub remove : ℕ → List ℕ → List ℕ
remove p [] = []
remove p (x ∷ xs) = let rest = remove p xs in if x == p then xs else x ∷ rest

unfoldable pub free_pool : Pool → List ℕ → Option (List ℕ)
free_pool pool live =
    if pool.virt_addr == 0
    then some live
    else if contains pool.virt_addr live
    then some (remove pool.virt_addr live)
    else none

abbrev pub and_free : Pool → Option (List ℕ) → Option (List ℕ)
and_free pool none = none
and_free pool (some live) = free_pool pool live

abbrev pub with_live : PoolMem → Option (List ℕ) → Option PoolMem
with_live m none = none
with_live m (some live) = some (record m { live = live })

-- The addresses in the pools stay as they are.
unfoldable pub free_mem_pools : PoolMem → Option PoolMem
unfolding free_pool
free_mem_pools m = with_live m (and_free m.data_pool (free_pool m.mgmt m.live))

unfoldable pub no_memory : Option PoolMem → Option (Ret × PoolMem)
no_memory none = none
no_memory (some m) = some (err enomem, m)

-- `out_err`
unfoldable pub pools_out_err : PoolMem → Option (Ret × PoolMem)
unfolding free_mem_pools no_memory
pools_out_err m = no_memory (free_mem_pools m)

unfoldable pub alloc_data : List (Option (ℕ × ℕ)) → PoolMem → Option (Ret × PoolMem)
unfolding pools_out_err
alloc_data [] m =
    pools_out_err (record m { data_pool = record m.data_pool { chunk_size = chunk_size } })
alloc_data (none ∷ as') m =
    pools_out_err
      (record m { data_pool = record m.data_pool { chunk_size = chunk_size }; allocs = as' })
alloc_data (some (p, phy) ∷ as') m = some (
  ok,
  record m {
    data_pool = record { chunk_size = chunk_size; virt_addr = p; phy_addr = phy };
    live = p ∷ m.live;
    allocs = as';
  },
)

unfoldable pub alloc_mgmt : List (Option (ℕ × ℕ)) → PoolMem → Option (Ret × PoolMem)
unfolding pools_out_err alloc_data
alloc_mgmt [] m = pools_out_err (record m { mgmt = record m.mgmt { chunk_size = chunk_size } })
alloc_mgmt (none ∷ as') m =
    pools_out_err (record m { mgmt = record m.mgmt { chunk_size = chunk_size }; allocs = as' })
alloc_mgmt (some (p, phy) ∷ as') m = alloc_data as' (record m {
  mgmt = record { chunk_size = chunk_size; virt_addr = p; phy_addr = phy };
  live = p ∷ m.live;
  allocs = as';
})

unfoldable pub allocate_mem_pools : PoolMem → Option (Ret × PoolMem)
unfolding alloc_mgmt
allocate_mem_pools m = alloc_mgmt m.allocs m
