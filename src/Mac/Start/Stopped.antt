-- ===== src/Mac/Start/Stopped.antt =====
-- A start with everything granted, and the stop after it.
use wcn36xx.Common.{ℕ, ◌+◌, ◌-◌, ◌≡◌, refl, ap, ◌∙◌, true, false, Option, some, List, [], ok, arith}
use wcn36xx.Smd.State.{Hal, first_or_true, tail_of}
use wcn36xx.Smd.Link.{smd_stop}
use wcn36xx.Smd.Ind.{IndState, run_ind_wq}
use wcn36xx.Smd.Nv.{NvState, smd_load_nv}
use wcn36xx.Smd.Config.{FwInfo, smd_start, smd_update_cfg}
use wcn36xx.Dxe.Irq.{AreRings, AreRxRings}
use wcn36xx.Dxe.Ctl.{Ptr, Cells, free_ctl_blks}
use wcn36xx.Dxe.Ctl.Allocate.{heap}
use wcn36xx.Dxe.Ctl.All.{with_heads, rings}
use wcn36xx.Dxe.Pools.{PoolMem, free_mem_pools}
use wcn36xx.Dxe.Pools.Stale.{filled, freed}
use wcn36xx.Dxe.Setup.{dxe_deinit}
use wcn36xx.Dxe.Setup.Ready.{tx_side, rx_side}
use wcn36xx.Msm.Open.{Link, open_link, msm_smd_close, closed_after, smd_close}
use wcn36xx.Mac.Start.{
  Device, Run, hal_of, with_hal, Outside, init_engine, started_chip, start_chip, loaded_nv, load_nv,
  alloc_hal_buf, start, stop_freed, stop,
}
use wcn36xx.Mac.Start.Leaks.{
  Places, blocks_freed, Granted, held, held_pools, start-held, then_run-some,
}
use wcn36xx.Mac.Start.Running.{
  EngineUp, init_engine-EngineUp, chosen, exchanged, exchange_caps_lem, EngineGranted,
}

module _ (o : Outside) (d : Device) (at : Places) (c : Cells) (more : List (Option (ℕ × ℕ)))
    (rest : List Ptr) where
  -- What a device holds once it is up, beside the state of the firmware: compared with `d` before the
  -- start.
  pub record Holds (up : Device) : Type 0 where
    pub link_is : up.link ≡ open_link o.attempt d.link
    pub pools_are : up.pools ≡ held_pools o d at c more rest
    pub chans_are : up.chans ≡ with_heads at.tx_l at.tx_h at.rx_l at.rx_h d.chans
    pub mem_is : up.mem ≡ heap (rings at.tx_l at.tx_h at.rx_l at.rx_h c) rest
    pub bufs_are : up.hal_bufs ≡ d.hal_bufs + 1

  pub record Up (r : Run) : Type 0 where
    pub up : Device
    pub returns : r ≡ some (ok, up)
    pub holds : Holds up
    pub tx : AreRings (tx_side up.engine)
    pub rx : AreRxRings (rx_side up.engine)

  -- The channel with the new command buffer.
  abbrev pub new_buffer : Hal
  new_buffer = record (hal_of d) {
    ind_queue = [];
    ind_pending = false;
    allocs = tail_of (hal_of d).allocs;
    buf = o.garbage;
  }

  -- When the channel opens, all memory and both interrupt lines are granted, and the calibration data
  -- and the start command succeed, whatever the firmware answers to the later commands: the call
  -- returns 0, the device holds the two work queues, the open channel, the pools, the control blocks
  -- and one more command buffer, and the transmit and receive rings are well formed.
  pub start-Up :
      Granted o d at c more rest
      → first_or_true (hal_of d).allocs ≡ true
      → (s : NvState)
      → smd_load_nv o.rounds o.firmware (record { nv = d.nv; hal = new_buffer }) ≡ some (ok, s)
      → (h : Hal) (info : FwInfo) → smd_start s.hal d.ind.info ≡ (ok, h, info)
      → EngineGranted d.engine
      → Up (start o d)
  unfolding alloc_hal_buf load_nv loaded_nv start_chip started_chip
  start-Up g free s loaded h info started e =
      let b : Device =
        with_hal new_buffer (record (held o d at c more rest) { hal_bufs = d.hal_bufs + 1 }) in
      let b' : Device = with_hal s.hal (record b { nv = s.nv }) in
      let x : Device = record b' { ind = record b'.ind { hal = h; info = info } } in
      let (h', caps, same) = exchange_caps_lem x in
      let u : EngineUp (exchanged h' caps x) (init_engine (exchanged h' caps x)) =
        init_engine-EngineUp (exchanged h' caps x) e in
      record {
        up = record (exchanged h' caps x) {
          engine = u.engine;
          ind = record x.ind { hal = (smd_update_cfg 83 1 h').1; vifs = [] };
        };
        returns =
            start-held o d at c more rest g
            ∙ chosen (first_or_true (hal_of d).allocs) _ _ free
            ∙ then_run-some
                (smd_load_nv o.rounds o.firmware (record { nv = d.nv; hal = new_buffer }))
                (loaded_nv b) (ok, s) loaded
            ∙ ap (λ r. started_chip r b') started
            ∙ ap init_engine same
            ∙ u.returns;
        holds = record {
          link_is = refl;
          pools_are = refl;
          chans_are = refl;
          mem_is = refl;
          bufs_are = refl;
        };
        tx = u.tx;
        rx = u.rx;
      }

  -- What a stop leaves, compared with `d` before the start.
  pub record Released (up : Device) (r : Run) : Type 0 where
    pub down : Device
    pub returns : r ≡ some (ok, down)
    pub queue_back : down.link.wq ≡ d.link.wq
    pub ind_queue_back : down.link.hal_ind_wq ≡ d.link.hal_ind_wq
    pub closed : down.link.channel_open ≡ false
    pub pools_back : down.pools.live ≡ d.pools.live
    pub blocks_back : down.mem ≡ heap c rest
    pub bufs_back : down.hal_bufs ≡ d.hal_bufs
    pub engine_off : down.engine ≡ dxe_deinit up.engine

  -- On a device that holds what such a start gives, whose work for indications, if it is queued, has a
  -- message to take: the stop returns, the work queues, the memory of the pools, the control blocks
  -- and the command buffers are what they were before the start, the channel is closed, and the
  -- engine is the one that wcn36xx_dxe_deinit leaves.
  pub stop-Released :
      Granted o d at c more rest
      → (up : Device) → Holds up
      → (i : IndState) → run_ind_wq (record up.ind { hal = (smd_stop (hal_of up)).1 }) ≡ some i
      → Released up (stop up)
  unfolding stop stop_freed smd_close closed_after msm_smd_close
  stop-Released g up h i ran =
      let l : Link = record up.link {
        wq = up.link.wq - 1;
        hal_ind_wq = up.link.hal_ind_wq - 1;
        channel_open = false;
      } in
      let p : PoolMem = record (filled at.mgmt at.mgmt_phy at.data_pool at.data_phy d.pools) {
        live = d.pools.live;
        allocs = more;
      } in
      let wq : up.link.wq ≡ d.link.wq + 1 = ap (λ (k : Link). k.wq) h.link_is in
      let ind_wq : up.link.hal_ind_wq ≡ d.link.hal_ind_wq + 1 =
        ap (λ (k : Link). k.hal_ind_wq) h.link_is in
      let off : Device = record up { engine = dxe_deinit up.engine; link = l; ind = i } in
      record {
        down = record off { pools = p; mem = heap c rest; hal_bufs = up.hal_bufs - 1 };
        returns =
            then_run-some (smd_close up.link (record up.ind { hal = (smd_stop (hal_of up)).1 })) _
              (l, i) (ap (closed_after (msm_smd_close up.link)) ran)
            ∙ then_run-some (free_mem_pools up.pools) _ p (
                ap free_mem_pools h.pools_are
                ∙ freed d.pools at.mgmt at.mgmt_phy at.data_pool at.data_phy more g.mgmt_not_null
                    g.data_not_null g.apart)
            ∙ then_run-some (free_ctl_blks up.chans up.mem) _ (tt, heap c rest)
                ((λ j. free_ctl_blks (h.chans_are j) (h.mem_is j))
                  ∙ blocks_freed o d at c more rest g);
        queue_back = omega (arith, wq);
        ind_queue_back = omega (arith, ind_wq);
        closed = refl;
        pools_back = refl;
        blocks_back = refl;
        bufs_back = omega (arith, h.bufs_are);
        engine_off = refl;
      }
