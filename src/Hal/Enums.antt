-- ===== src/Hal/Enums.antt =====
-- Constants of hal.h, smd.h and wcn36xx.h that requests carry, by the source's names.
use wcn36xx.Common.{ℕ}

abbrev pub hal_buf_size : ℕ
hal_buf_size = 4096

abbrev pub nv_fragment_size : ℕ
nv_fragment_size = 3072

abbrev pub result_success : ℕ
result_success = 0

abbrev pub pno_version_mask : ℕ
pno_version_mask = 0x8000

abbrev pub beacon_template_size : ℕ
beacon_template_size = 0x17c

abbrev pub tim_min_pvm_size : ℕ
tim_min_pvm_size = 6

abbrev pub sta_invalid_idx : ℕ
sta_invalid_idx = 0xff

abbrev pub bss_invalid_idx : ℕ
bss_invalid_idx = 0xff

abbrev pub aggr_buffer_size : ℕ
aggr_buffer_size = 64

abbrev pub keep_alive_null_pkt : ℕ
keep_alive_null_pkt = 1

abbrev pub keep_alive_unsolicit_arp_rsp : ℕ
keep_alive_unsolicit_arp_rsp = 2

abbrev pub keep_alive_time_period : ℕ
keep_alive_time_period = 30

-- `enum driver_type`
pub data DriverType : Type 0 where
  production mfg dvt : DriverType

abbrev pub driver_code : DriverType → ℕ
driver_code production = 0
driver_code mfg = 1
driver_code dvt = 2

-- `enum wcn36xx_hal_stop_type`
pub data StopType : Type 0 where
  sys_reset sys_deep_sleep rf_kill : StopType

abbrev pub stop_code : StopType → ℕ
stop_code sys_reset = 0
stop_code sys_deep_sleep = 1
stop_code rf_kill = 2

-- `enum wcn36xx_hal_sys_mode`
pub data SysMode : Type 0 where
  normal learn scan promisc suspend_link roam_scan roam_suspend_link : SysMode

abbrev pub mode_code : SysMode → ℕ
mode_code normal = 0
mode_code learn = 1
mode_code scan = 2
mode_code promisc = 3
mode_code suspend_link = 4
mode_code roam_scan = 5
mode_code roam_suspend_link = 6

-- `enum wcn36xx_hal_link_state`, as far as the driver names it
pub data LinkState : Type 0 where
  idle_state preassoc_state postassoc_state ap_state ibss_state : LinkState

abbrev pub link_code : LinkState → ℕ
link_code idle_state = 0
link_code preassoc_state = 1
link_code postassoc_state = 2
link_code ap_state = 3
link_code ibss_state = 4

-- `enum ani_ed_type`
pub data EdType : Type 0 where
  ed_none ed_wep40 ed_wep104 ed_tkip ed_ccmp ed_wpi ed_aes_128_cmac : EdType

abbrev pub ed_code : EdType → ℕ
ed_code ed_none = 0
ed_code ed_wep40 = 1
ed_code ed_wep104 = 2
ed_code ed_tkip = 3
ed_code ed_ccmp = 4
ed_code ed_wpi = 5
ed_code ed_aes_128_cmac = 6

-- `enum ani_key_direction`
pub data KeyDirection : Type 0 where
  tx_only rx_only tx_rx tx_default : KeyDirection

abbrev pub direction_code : KeyDirection → ℕ
direction_code tx_only = 0
direction_code rx_only = 1
direction_code tx_rx = 2
direction_code tx_default = 3
