-- ===== src/Mac/Start/Tests.antt =====
-- A start and a stop of a concrete device, with addresses counted from 1.
use wcn36xx.Common.{
  pos, ℕ, zero, suc, ◌<◌, ◌≤◌, ◌≡◌, ◌==◌, refl, Bool, true, false, Option, none, some, List, [],
  ◌∷◌, ◌++◌, zeros, length-replicate, replicate, Ret, ok, arith,
}
use mathlib.Core.List.{map}
use wcn36xx.Hal.MsgType
use wcn36xx.Hal.Layout.{header, frame}
use wcn36xx.Smd.State.{Hal, accepted}
use wcn36xx.Smd.Ind.{IndState, run_ind_wq}
use wcn36xx.Smd.Link.{smd_stop, stop_msg}
use wcn36xx.Smd.Receive.{arrivals, rsp_process, is_one_of, complete_with}
use wcn36xx.Smd.Send.{simple, send_and_wait, wait_reply, then_check, rsp_status_check}
use wcn36xx.Smd.Nv.{
  found, is_last, bytes_left, NvState, smd_load_nv, load_cached, request_nv, with_nv, keep_nv,
  load_nv_loop, send_fragment, fill_fragment,
}
use wcn36xx.Smd.Nv.Endless.{download_nv_ok}
use wcn36xx.Smd.Config
use wcn36xx.Smd.Config.{
  FwInfo, cfg_vals, put_cfg_list, put_cfg_tlv_u32, start_after, start_checked, start_send,
  smd_start,
}
use wcn36xx.Dxe.State.{Skb, Channel, ChType, tx_l, tx_h, rx_l, rx_h}
use wcn36xx.Dxe.Ctl.{Ptr, null, Cells, CtlCh}
use wcn36xx.Dxe.Ctl.Chain.{mem, Distinct, Unused}
use wcn36xx.Dxe.Ctl.Allocate.{heap}
use wcn36xx.Dxe.Ctl.All.{Addrs, Memory, all, addresses, rings, with_heads}
use wcn36xx.Dxe.Setup.{Engine}
use wcn36xx.Msm.Open.{open_link}
use wcn36xx.Mac.Start.{Device, Outside, hal_of, start, stop}
use wcn36xx.Mac.Start.Leaks.{held_pools, Places, Granted, Leaked, start-leaks}
use wcn36xx.Mac.Start.Stopped.{Holds, Up, new_buffer, start-Up, Released, stop-Released}
use wcn36xx.Mac.Start.Running.{EngineGranted}

-- `k` addresses from `n` on.
abbrev count_from : ℕ → ℕ → List ℕ
count_from n zero = []
count_from n (suc k) = n ∷ count_from (suc n) k

not_below : (p n k : ℕ) → p < n → mem p (count_from n k) ≡ false
not_below p n zero lt = refl
not_below p n (suc k) lt =
    let ne : (p == n) ≡ false = ground arith in rw (ne, not_below p (suc n) k (omega arith)) refl

count_from-Distinct : (n k : ℕ) → 1 ≤ n → Distinct (count_from n k)
count_from-Distinct n zero one = tt
count_from-Distinct n (suc k) one = (
  λ e. absurd (omega arith),
  not_below n (suc n) k (omega arith),
  count_from-Distinct (suc n) k (omega arith),
)

abbrev nothing : Cells
nothing p = none

nothing-Unused : (ps : List Ptr) → Unused nothing ps
nothing-Unused [] = tt
nothing-Unused (p ∷ ps) = (refl, nothing-Unused ps)

abbrev addrs : ℕ → ℕ → Addrs
addrs n k = record { p = n; q = suc n; more = count_from (suc (suc n)) k }

memory : Memory nothing (addrs 1 126) (addrs 129 8) (addrs 139 510) (addrs 651 38)
memory = record {
  tx_l_count = refl;
  tx_h_count = refl;
  rx_l_count = refl;
  rx_h_count = refl;
  distinct = count_from-Distinct 1 690 (omega arith);
  unused =
      nothing-Unused
        (all (addrs 1 126) ++ (all (addrs 129 8) ++ (all (addrs 139 510) ++ all (addrs 651 38))));
}

abbrev no_ctl : CtlCh
no_ctl = record { desc_num = 0; head_blk_ctl = null; tail_blk_ctl = null }

abbrev no_channel : ChType → Channel
no_channel t = record {
  ch_type = t;
  blocks = [];
  head = 0;
  tail = 0;
  dxe_wq = 0;
  ctrl_bd = 0;
  ctrl_skb = 0;
  reg_ctrl = 0;
  def_ctrl = 0;
}

abbrev buffer : Skb
buffer = record { id = 1; len = 0; dma = 16; wants_status = false }

abbrev engine : Engine
engine = record {
  tx_l = no_channel tx_l;
  tx_h = no_channel tx_h;
  rx_l = no_channel rx_l;
  rx_h = no_channel rx_h;
  data_pool = record { chunk_size = 0; virt_addr = 0; phy_addr = 0 };
  mgmt_pool = record { chunk_size = 0; virt_addr = 0; phy_addr = 0 };
  is_3680 = false;
  tx_ack_skb = none;
  coherent = some 1024 ∷ some 8192 ∷ some 12288 ∷ some 32768 ∷ [];
  skbs = map some (replicate 512 buffer) ++ (map some (replicate 40 buffer) ++ []);
  reads = [];
  irqs = [];
  calls = [];
}

abbrev unknown : FwInfo
unknown = record {
  crm_version = zeros 65;
  wlan_version = zeros 65;
  fw_revision = 0;
  fw_version = 0;
  fw_minor = 0;
  fw_major = 0;
}

-- The firmware answers the calibration and the start.
abbrev device : List Bool → Device
device kmallocs = record {
  link = record { wq = 0; hal_ind_wq = 0; channel_open = false; read_intr = true };
  ind = record {
    hal = record {
      buf = [];
      rsp_len = 0;
      completed = false;
      ind_queue = [];
      ind_pending = false;
      sent = [];
      replies =
          accepted (download_nv_ok ∷ [])
          ∷ accepted ((header MsgType.start_rsp 144 ++ zeros 136) ∷ [])
          ∷ [];
      allocs = kmallocs;
    };
    info = unknown;
    vifs = [];
    calls = [];
  };
  nv = none;
  fw_feat_caps = 0 ∷ 0 ∷ 0 ∷ 0 ∷ [];
  pools = record {
    mgmt = record { chunk_size = 0; virt_addr = 0; phy_addr = 0 };
    data_pool = record { chunk_size = 0; virt_addr = 0; phy_addr = 0 };
    live = [];
    allocs = some (4096, 64) ∷ some (65536, 128) ∷ [];
  };
  chans = record { tx_l = no_ctl; tx_h = no_ctl; rx_l = no_ctl; rx_h = no_ctl };
  mem = heap nothing (addresses (addrs 1 126) (addrs 129 8) (addrs 139 510) (addrs 651 38) []);
  hal_bufs = 0;
  engine = engine;
}

abbrev outside : Outside
outside = record {
  attempt = record { ind_queue_memory = true; queue_memory = true; named_result = 0; left = pos 5 };
  firmware = found (1 ∷ 0 ∷ 0 ∷ 0 ∷ 7 ∷ 8 ∷ []);
  rounds = 22;
  garbage = zeros 4096;
}

abbrev places : Places
places = record {
  mgmt = 4096;
  mgmt_phy = 64;
  data_pool = 65536;
  data_phy = 128;
  tx_l = addrs 1 126;
  tx_h = addrs 129 8;
  rx_l = addrs 139 510;
  rx_h = addrs 651 38;
}

granted : (ks : List Bool) → Granted outside (device ks) places nothing [] []
granted ks = record {
  opens = record { ind_queue = refl; queue = refl; named = refl; waited = tt };
  pool_memory = refl;
  mgmt_not_null = λ e. absurd (omega arith);
  data_not_null = λ e. absurd (omega arith);
  apart = λ e. absurd (omega arith);
  mgmt_new = refl;
  memory = memory;
  kzallocs = refl;
}

start-leaks_example :
    Leaked (device (false ∷ [])) places (heap nothing []) (start outside (device (false ∷ [])))
start-leaks_example =
    start-leaks outside (device (false ∷ [])) places nothing [] [] (granted (false ∷ [])) refl

abbrev before_load : NvState
before_load = record { nv = none; hal = new_buffer outside (device []) places nothing [] [] }

state_of : Option (Ret × NvState) → NvState
state_of none = before_load
state_of (some (ret, s)) = s

abbrev after_load : NvState
after_load = state_of (smd_load_nv 22 outside.firmware before_load)

loaded : smd_load_nv 22 outside.firmware before_load ≡ some (ok, after_load)
unfolding smd_load_nv load_cached request_nv with_nv keep_nv load_nv_loop send_fragment
    fill_fragment send_and_wait wait_reply arrivals rsp_process is_one_of complete_with then_check
    rsp_status_check download_nv_ok header state_of is_last bytes_left
loaded = refl

abbrev first_start : Ret × Hal × FwInfo
first_start = smd_start after_load.hal unknown

started_ok : first_start.0 ≡ ok
unfolding smd_start start_after start_checked start_send send_and_wait wait_reply put_cfg_list
    cfg_vals put_cfg_tlv_u32 smd_load_nv load_cached request_nv with_nv keep_nv load_nv_loop
    send_fragment fill_fragment arrivals rsp_process is_one_of complete_with then_check
    rsp_status_check download_nv_ok header state_of is_last bytes_left Config.start_rsp
started_ok = refl

engine_granted : EngineGranted engine
engine_granted = record {
  a = 1024;
  b = 8192;
  c = 12288;
  d = 32768;
  more = [];
  low_buffers = replicate 512 buffer;
  high_buffers = replicate 40 buffer;
  left = [];
  coherent_is = refl;
  skbs_are = refl;
  low_count = length-replicate 512 buffer;
  high_count = length-replicate 40 buffer;
  tx_line = refl;
  rx_line = refl;
}

start-Up_example : Up outside (device []) places nothing [] [] (start outside (device []))
start-Up_example =
    start-Up outside (device []) places nothing [] [] (granted []) refl after_load loaded
      first_start.1 first_start.2 (λ i. (started_ok i, first_start.1, first_start.2)) engine_granted

-- A device that is up.
abbrev up : Device
up = record (device []) {
  link = open_link outside.attempt (device []).link;
  pools = held_pools outside (device []) places nothing [] [];
  chans = with_heads places.tx_l places.tx_h places.rx_l places.rx_h (device []).chans;
  mem = heap (rings places.tx_l places.tx_h places.rx_l places.rx_h nothing) [];
  hal_bufs = 1;
}

abbrev ran : IndState
ran = record (device []).ind { hal = (smd_stop (hal_of up)).1 }

not_queued : run_ind_wq ran ≡ some ran
unfolding run_ind_wq smd_stop simple stop_msg frame header send_and_wait wait_reply arrivals
    rsp_process is_one_of complete_with download_nv_ok
not_queued = refl

up-Holds : Holds outside (device []) places nothing [] [] up
up-Holds = record {
  link_is = refl;
  pools_are = refl;
  chans_are = refl;
  mem_is = refl;
  bufs_are = refl;
}

stop-Released_example : Released outside (device []) places nothing [] [] up (stop up)
stop-Released_example =
    stop-Released outside (device []) places nothing [] [] (granted []) up up-Holds ran not_queued
