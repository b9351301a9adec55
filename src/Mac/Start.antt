-- ===== src/Mac/Start.antt =====
-- Bringing the device up and down: `wcn36xx_start`, `wcn36xx_stop`, `wcn36xx_detect_chip_version` and
-- `wcn36xx_feat_caps_info` of main.c.
pub mod Leaks
pub mod Running
pub mod Stopped
mod Tests
use wcn36xx.Common.{
  ℕ, zero, suc, ◌+◌, ◌-◌, Bool, true, false, not, ◌==◌, failed, if◌then◌else◌, Option, none, some,
  List, [], ◌∷◌, ◌++◌, replicate, Ret, ok, err, enomem,
}
use wcn36xx.Smd.State.{Hal, first_or_true, tail_of}
use wcn36xx.Smd.Ind.{IndState}
use wcn36xx.Smd.Nv.{Firmware, NvState, smd_load_nv}
use wcn36xx.Smd.Config.{FwInfo, is_fw_version, smd_start, smd_update_cfg}
use wcn36xx.Smd.Caps.{get_feat_caps, dot11ac, smd_feature_caps_exchange}
use wcn36xx.Smd.Link.{smd_stop}
use wcn36xx.Dxe.State.{Channel, ChType, Event, tx_l, tx_h, rx_l, rx_h, no_block}
use wcn36xx.Dxe.Ctl.{Mem, Channels, alloc_ctl_blks, free_ctl_blks}
use wcn36xx.Dxe.Pools.{PoolMem, allocate_mem_pools, free_mem_pools}
use wcn36xx.Dxe.Setup.{Engine, dxe_init, dxe_deinit}
use wcn36xx.Msm.Open.{Link, Attempt, smd_open, smd_close}

-- The parts of `struct wcn36xx` that starting and stopping change. `ind` has the command channel, the
-- version of the firmware and the interfaces; `hal_bufs` counts the command buffers that are
-- allocated. The rings of `engine` are the blocks of `chans` in their order.
pub record Device : Type 0 where
  pub link : Link
  pub ind : IndState
  pub nv : Option (List ℕ)
  pub fw_feat_caps : List ℕ
  pub pools : PoolMem
  pub chans : Channels
  pub mem : Mem
  pub hal_bufs : ℕ
  pub engine : Engine

-- A call that follows a dangling pointer, or does not end, has no result.
abbrev pub Run : Type 0
Run = Option (Ret × Device)

abbrev pub then_run {ℓ} : {A : Type ℓ} → Option A → (A → Run) → Run
then_run none f = none
then_run (some a) f = f a

abbrev pub hal_of : Device → Hal
hal_of d = d.ind.hal

abbrev pub with_hal : Hal → Device → Device
with_hal h d = record d { ind = record d.ind { hal = h } }

-- The labels from the last one up; each runs into the next. `out_err` returns.
unfoldable pub out_smd_close : Ret → Device → Run
unfolding smd_close
out_smd_close ret d =
    then_run (smd_close d.link d.ind) λ (l, i). some (ret, record d { link = l; ind = i })

unfoldable pub out_free_dxe_ctl : Ret → Device → Run
unfolding out_smd_close
out_free_dxe_ctl ret d =
    then_run (free_ctl_blks d.chans d.mem) λ (_, m). out_smd_close ret (record d { mem = m })

unfoldable pub out_free_dxe_pool : Ret → Device → Run
unfolding out_free_dxe_ctl
out_free_dxe_pool ret d =
    then_run (free_mem_pools d.pools) λ p. out_free_dxe_ctl ret (record d { pools = p })

unfoldable pub out_free_smd_buf : Ret → Device → Run
unfolding out_free_dxe_pool
out_free_smd_buf ret d = out_free_dxe_pool ret (record d { hal_bufs = d.hal_bufs - 1 })

unfoldable pub out_smd_stop : Ret → Device → Run
unfolding out_free_smd_buf smd_stop
out_smd_stop ret d = out_free_smd_buf ret (with_hal (smd_stop (hal_of d)).1 d)

-- The fields that wcn36xx_dxe_alloc_ctl_blks sets, and `desc_num` blocks from `kzalloc`.
unfoldable pub fresh_channel : ChType → Channel
fresh_channel tx_l = record {
  ch_type = tx_l;
  blocks = replicate 128 no_block;
  head = 0;
  tail = 0;
  dxe_wq = 0x17;
  ctrl_bd = 0x308a45;
  ctrl_skb = 0x328a4d;
  reg_ctrl = 0x202400;
  def_ctrl = 0x843e8b4d;
}
fresh_channel tx_h = record {
  ch_type = tx_h;
  blocks = replicate 10 no_block;
  head = 0;
  tail = 0;
  dxe_wq = 0x17;
  ctrl_bd = 0x30ce45;
  ctrl_skb = 0x32ce4d;
  reg_ctrl = 0x202500;
  def_ctrl = 0x853ECF4D;
}
fresh_channel rx_l = record {
  ch_type = rx_l;
  blocks = replicate 512 no_block;
  head = 0;
  tail = 0;
  dxe_wq = 0;
  ctrl_bd = 0;
  ctrl_skb = 0;
  reg_ctrl = 0;
  def_ctrl = 0;
}
fresh_channel rx_h = record {
  ch_type = rx_h;
  blocks = replicate 40 no_block;
  head = 0;
  tail = 0;
  dxe_wq = 0;
  ctrl_bd = 0;
  ctrl_skb = 0;
  reg_ctrl = 0;
  def_ctrl = 0;
}

-- Chip 3680 or 3660; -EINVAL counts as a capability.
abbrev pub is_set : Option ℕ → Bool
is_set none = true
is_set (some n) = not (n == 0)

unfoldable pub detect_chip_version : List ℕ → Bool
unfolding get_feat_caps
detect_chip_version caps = is_set (get_feat_caps caps dot11ac)

-- `MAX_FEATURE_SUPPORTED` rounds: the capabilities whose names are logged.
unfoldable pub feat_caps_loop : ℕ → ℕ → List ℕ → List ℕ
unfolding get_feat_caps
feat_caps_loop zero i caps = []
feat_caps_loop (suc k) i caps =
    (if is_set (get_feat_caps caps i) then i ∷ [] else []) ++ feat_caps_loop k (suc i) caps

unfoldable pub feat_caps_info : List ℕ → List ℕ
unfolding feat_caps_loop
feat_caps_info caps = feat_caps_loop 128 0 caps

-- `ret` of `wcn36xx_dxe_init`; the debug files that a start makes are in Debug/Files.
unfoldable pub start_engine : Ret × Engine → Device → Run
unfolding out_smd_stop
start_engine (r, e) d =
    let d' = record d { engine = e; ind = record d.ind { vifs = [] } } in
    if failed r then out_smd_stop r (record d { engine = e }) else some (ok, d')

unfoldable pub init_engine : Device → Run
unfolding detect_chip_version fresh_channel start_engine dxe_init smd_update_cfg
init_engine d =
    let e = record d.engine {
      tx_l = fresh_channel tx_l;
      tx_h = fresh_channel tx_h;
      rx_l = fresh_channel rx_l;
      rx_h = fresh_channel rx_h;
      data_pool = d.pools.data_pool;
      mgmt_pool = d.pools.mgmt;
      is_3680 = detect_chip_version d.fw_feat_caps;
    } in
    let d' = with_hal (smd_update_cfg 83 1 (hal_of d)).1 d in
    then_run (dxe_init e) λ r. start_engine r d'

-- The result of the exchange is only logged.
unfoldable pub exchange_caps : Device → Device
unfolding is_fw_version smd_feature_caps_exchange
exchange_caps d =
    let (r, h, caps) = smd_feature_caps_exchange (hal_of d) d.fw_feat_caps in
    if is_fw_version d.ind.info 1 2 2 24 then d else with_hal h (record d { fw_feat_caps = caps })

unfoldable pub started_chip : Ret × Hal × FwInfo → Device → Run
unfolding exchange_caps init_engine out_free_smd_buf
started_chip (r, h, info) d =
    let d' = record d { ind = record d.ind { hal = h; info = info } } in
    if failed r then out_free_smd_buf r d' else init_engine (exchange_caps d')

unfoldable pub start_chip : Device → Run
unfolding smd_start started_chip
start_chip d = started_chip (smd_start (hal_of d) d.ind.info) d

-- What lies outside for one start: the opening of the channel, the firmware's files with the rounds
-- of the loop that sends them, and what is in the memory of the new command buffer.
pub record Outside : Type 0 where
  pub attempt : Attempt
  pub firmware : Firmware
  pub rounds : ℕ
  pub garbage : List ℕ

unfoldable pub loaded_nv : Device → Ret × NvState → Run
unfolding start_chip out_free_smd_buf
loaded_nv d (r, s) =
    let d' = with_hal s.hal (record d { nv = s.nv }) in
    if failed r then out_free_smd_buf r d' else start_chip d'

unfoldable pub load_nv : Outside → Device → Run
unfolding smd_load_nv loaded_nv
load_nv o d =
    then_run (smd_load_nv o.rounds o.firmware (record { nv = d.nv; hal = hal_of d })) (loaded_nv d)

-- `wcn->hal_buf = kmalloc(...)`
unfoldable pub alloc_hal_buf : Outside → Device → Run
unfolding load_nv out_free_dxe_ctl
alloc_hal_buf o d =
    let h = record (hal_of d) { allocs = tail_of (hal_of d).allocs } in
    if first_or_true (hal_of d).allocs
    then load_nv o
        (with_hal (record h { buf = o.garbage }) (record d { hal_bufs = d.hal_bufs + 1 }))
    else out_free_dxe_ctl (err enomem) (with_hal h d)

unfoldable pub allocated_ctl : Outside → Device → (Ret × Channels × List Event) × Mem → Run
unfolding alloc_hal_buf out_free_dxe_pool
allocated_ctl o d ((r, c, es), m) =
    let d' = record d { chans = c; mem = m } in
    if failed r then out_free_dxe_pool r d' else alloc_hal_buf o d'

unfoldable pub alloc_ctl : Outside → Device → Run
unfolding allocated_ctl
alloc_ctl o d = then_run (alloc_ctl_blks d.chans d.mem) (allocated_ctl o d)

unfoldable pub allocated_pools : Outside → Device → Ret × PoolMem → Run
unfolding alloc_ctl out_smd_close
allocated_pools o d (r, p) =
    let d' = record d { pools = p } in if failed r then out_smd_close r d' else alloc_ctl o d'

unfoldable pub alloc_pools : Outside → Device → Run
unfolding allocated_pools
alloc_pools o d = then_run (allocate_mem_pools d.pools) (allocated_pools o d)

unfoldable pub opened : Outside → Device → Ret × Link × Hal → Run
unfolding alloc_pools
opened o d (r, l, h) =
    let d' = with_hal h (record d { link = l }) in
    if failed r then some (r, d') else alloc_pools o d'

unfoldable pub start : Outside → Device → Run
unfolding smd_open opened
start o d = opened o d (smd_open o.attempt d.link (hal_of d))

-- The end of `wcn36xx_stop`, after the channel is closed.
unfoldable pub stop_freed : Device → Run
stop_freed d = then_run (free_mem_pools d.pools) λ p.
    then_run (free_ctl_blks d.chans d.mem)
      λ (_, m). some (ok, record d { pools = p; mem = m; hal_bufs = d.hal_bufs - 1 })

-- `wcn36xx_stop`; `ok` stands for its lack of a result. The debug files are in Debug/Files.
unfoldable pub stop : Device → Run
unfolding smd_stop dxe_deinit smd_close stop_freed
stop d =
    let d' = with_hal (smd_stop (hal_of d)).1 (record d { engine = dxe_deinit d.engine }) in
    then_run (smd_close d'.link d'.ind) λ (l, i). stop_freed (record d' { link = l; ind = i })
