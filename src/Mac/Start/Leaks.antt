-- ===== src/Mac/Start/Leaks.antt =====
-- A start that has memory for the pools and the control blocks, and what it leaves when it has none
-- for the command buffer.
use wcn36xx.Common.{
  ℕ, ◌-◌, ◌≡◌, ◌≢◌, refl, ap, ◌∙◌, Bool, false, if◌then◌else◌, Option, some, List, [], ◌∷◌, ok, err,
  enomem, arith,
}
use wcn36xx.Smd.State.{first_or_true, tail_of}
use wcn36xx.Smd.Ind.{run_ind_wq}
use wcn36xx.Dxe.State.{smsm_change_state}
use wcn36xx.Dxe.Ctl.{Ptr, Cells, Mem, free_ctl_blks, alloc_ctl_blks}
use wcn36xx.Dxe.Ctl.Allocate.{heap}
use wcn36xx.Dxe.Ctl.All.{Addrs, Memory, with_heads, rings, addresses, alloc_ctl_blks-free_ctl_blks}
use wcn36xx.Dxe.Pools.{PoolMem, contains, allocate_mem_pools}
use wcn36xx.Dxe.Pools.Stale.{filled, allocated}
use wcn36xx.Msm.Open.{Link, Opens, open_link, smd_open-Opens, smd_close}
use wcn36xx.Mac.Start.{
  Device, Run, then_run, hal_of, with_hal, Outside, alloc_hal_buf, allocated_ctl, alloc_ctl,
  allocated_pools, alloc_pools, opened, start, out_free_dxe_ctl, out_smd_close,
}

pub then_run-some {ℓ} :
    {A : Type ℓ} (r : Option A) (f : A → Run) (a : A) → r ≡ some a → then_run r f ≡ f a
then_run-some r f a e = rw e refl

if_false {ℓ} : {A : Type ℓ} (b : Bool) (x y : A) → b ≡ false → (if b then x else y) ≡ y
if_false b x y e = rw e refl

no_buffer :
    (o : Outside) (d : Device)
    → first_or_true (hal_of d).allocs ≡ false
    → alloc_hal_buf o d
      ≡ out_free_dxe_ctl
          (err enomem)
          (with_hal (record (hal_of d) { allocs = tail_of (hal_of d).allocs }) d)
unfolding alloc_hal_buf
no_buffer o d e = if_false (first_or_true (hal_of d).allocs) _ _ e

-- The link after closing.
abbrev smd_close_link : Link → Link
smd_close_link l = record l { wq = l.wq - 1; hal_ind_wq = l.hal_ind_wq - 1; channel_open = false }

-- The addresses of the memory that a start gets: of the pools and of the control blocks.
pub record Places : Type 0 where
  pub mgmt : ℕ
  pub mgmt_phy : ℕ
  pub data_pool : ℕ
  pub data_phy : ℕ
  pub tx_l : Addrs
  pub tx_h : Addrs
  pub rx_l : Addrs
  pub rx_h : Addrs

-- What a start that fails for the command buffer leaves of the device `d`.
pub record Leaked (d : Device) (at : Places) (m : Mem) (r : Run) : Type 0 where
  pub after : Device
  pub returns : r ≡ some (err enomem, after)
  pub pools_leaked : after.pools.live ≡ at.data_pool ∷ at.mgmt ∷ d.pools.live
  pub blocks_back : after.mem ≡ m
  pub queue_back : after.link.wq ≡ d.link.wq
  pub ind_queue_back : after.link.hal_ind_wq ≡ d.link.hal_ind_wq
  pub closed : after.link.channel_open ≡ false
  pub same_bufs : after.hal_bufs ≡ d.hal_bufs

module _ (o : Outside) (d : Device) (at : Places) (c : Cells) (more : List (Option (ℕ × ℕ)))
    (rest : List Ptr) where
  -- The channel opens, and there is memory for the pools and the control blocks, at addresses that
  -- are not in use.
  pub record Granted : Type 0 where
    pub opens : Opens o.attempt
    pub pool_memory :
        d.pools.allocs ≡ some (at.mgmt, at.mgmt_phy) ∷ some (at.data_pool, at.data_phy) ∷ more
    pub mgmt_not_null : at.mgmt ≢ 0
    pub data_not_null : at.data_pool ≢ 0
    pub apart : at.mgmt ≢ at.data_pool
    pub mgmt_new : contains at.mgmt d.pools.live ≡ false
    pub memory : Memory c at.tx_l at.tx_h at.rx_l at.rx_h
    pub kzallocs : d.mem ≡ heap c (addresses at.tx_l at.tx_h at.rx_l at.rx_h rest)

  abbrev pub held_pools : PoolMem
  held_pools = record (filled at.mgmt at.mgmt_phy at.data_pool at.data_phy d.pools) {
    live = at.data_pool ∷ at.mgmt ∷ d.pools.live;
    allocs = more;
  }

  -- The device before the command buffer is asked for.
  abbrev pub held : Device
  held = record d {
    link = open_link o.attempt d.link;
    ind = record d.ind { hal = record (hal_of d) { ind_queue = []; ind_pending = false } };
    pools = held_pools;
    chans = with_heads at.tx_l at.tx_h at.rx_l at.rx_h d.chans;
    mem = heap (rings at.tx_l at.tx_h at.rx_l at.rx_h c) rest;
  }

  module _ (g : Granted) where
    blocks_held :
        alloc_ctl_blks d.chans d.mem
        ≡ some (
          (
            ok,
            with_heads at.tx_l at.tx_h at.rx_l at.rx_h d.chans,
            smsm_change_state 0x400 0x200 ∷ [],
          ),
          heap (rings at.tx_l at.tx_h at.rx_l at.rx_h c) rest,
        )
    blocks_held =
        ap (alloc_ctl_blks d.chans) g.kzallocs
        ∙ (alloc_ctl_blks-free_ctl_blks c at.tx_l at.tx_h at.rx_l at.rx_h rest d.chans g.memory).0

    pub blocks_freed : free_ctl_blks held.chans held.mem ≡ some (tt, heap c rest)
    blocks_freed =
        (alloc_ctl_blks-free_ctl_blks c at.tx_l at.tx_h at.rx_l at.rx_h rest d.chans g.memory).1

    pub start-held : start o d ≡ alloc_hal_buf o held
    unfolding start opened alloc_pools allocated_pools alloc_ctl allocated_ctl
    start-held =
        ap (opened o d) (smd_open-Opens o.attempt d.link (hal_of d) g.opens)
        ∙ then_run-some (allocate_mem_pools d.pools) _ (ok, held_pools)
            (allocated d.pools at.mgmt at.mgmt_phy at.data_pool at.data_phy more g.pool_memory)
        ∙ then_run-some (alloc_ctl_blks d.chans d.mem) _ _ blocks_held

    -- Without memory for the command buffer.
    module _ (full : first_or_true (hal_of d).allocs ≡ false) where
      abbrev refused : Device
      refused = with_hal (record (hal_of held) { allocs = tail_of (hal_of d).allocs }) held

      abbrev after : Device
      after = record refused { link = (smd_close_link held.link); mem = heap c rest }

      closed :
          out_smd_close (err enomem) (record refused { mem = heap c rest })
          ≡ some (err enomem, after)
      unfolding out_smd_close smd_close run_ind_wq
      closed = refl

      freed_blocks : out_free_dxe_ctl (err enomem) refused ≡ some (err enomem, after)
      unfolding out_free_dxe_ctl
      freed_blocks = then_run-some (free_ctl_blks held.chans held.mem) _ _ blocks_freed ∙ closed

      -- When the channel opens and there is memory for the pools and the control blocks, but none for
      -- the command buffer: -ENOMEM is returned, with the work queues destroyed, the channel closed,
      -- the control blocks freed and no command buffer, but with both pools still allocated.
      pub start-leaks : Leaked d at (heap c rest) (start o d)
      start-leaks = record {
        after = after;
        returns = start-held ∙ no_buffer o held full ∙ freed_blocks;
        pools_leaked = refl;
        blocks_back = refl;
        queue_back = omega arith;
        ind_queue_back = omega arith;
        closed = refl;
        same_bufs = refl;
      }
