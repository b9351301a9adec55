-- ===== src/Smd/Bss/Fill.antt =====
-- The BSS parameters that `wcn36xx_smd_config_bss` fills in, and the parts that it calls.
use wcn36xx.Common.{ℕ, ◌%◌, Bool, List, Option, none, some, bit_at, ◌==◌, if◌then◌else◌}
use wcn36xx.Mac.Rates.{Band, band_2ghz, band_5ghz}
use wcn36xx.Smd.Objects.{IfType, station, ap, adhoc, mesh_point, other_type, Iface, Peer, Radio}
use wcn36xx.Smd.Sta.{no_sta_params}
use wcn36xx.Smd.Sta.Fill.{set_sta_params}
use wcn36xx.Smd.Bss.{BssParams, no_bss_params}

-- `enum wcn36xx_hal_nw_type`
pub data NwType : Type 0 where
  nw_11a nw_11b nw_11g nw_11n : NwType

abbrev pub nw_code : NwType → ℕ
nw_code nw_11a = 0
nw_code nw_11b = 1
nw_code nw_11g = 2
nw_code nw_11n = 3

unfoldable pub bss_nw_type : Band → Option Peer → NwType
bss_nw_type band_5ghz sta = nw_11a
bss_nw_type band_2ghz none = nw_11b
bss_nw_type band_2ghz (some sta) =
    if sta.ht_cap.ht_supported then nw_11n else if sta.rates_2ghz % 128 == 0 then nw_11b else nw_11g

unfoldable pub set_bss_ht_params : Iface → Option Peer → BssParams → BssParams
set_bss_ht_params vif none p = p
set_bss_ht_params vif (some sta) p =
    let caps = sta.ht_cap.cap in
    if sta.ht_cap.ht_supported
    then record p {
      ht = 1;
      tx_channel_width_set = bit_at 1 caps;
      lsig_tx_op_protection_full_support = bit_at 15 caps;
      ht_oper_mode = vif.conf.ht_operation_mode;
      lln_non_gf_coexist = bit_at 2 vif.conf.ht_operation_mode;
      dual_cts_protection = 0;
      ht20_coexist = 0;
    }
    else p

-- `bss_type`, `oper_mode` and `wcn36xx_hal_persona` of an interface. An interface of another type is
-- only warned of.
unfoldable pub bss_mode : IfType → ℕ × ℕ × ℕ
bss_mode station = (0, 1, 0)
bss_mode ap = (1, 0, 1)
bss_mode mesh_point = (1, 0, 1)
bss_mode adhoc = (2, 1, 0)
bss_mode other_type = (0, 0, 0)

unfoldable pub nw_type_of : IfType → Band → Option Peer → NwType
unfolding bss_nw_type
nw_type_of station band sta = bss_nw_type band sta
nw_type_of ap band sta = nw_11n
nw_type_of adhoc band sta = nw_11n
nw_type_of mesh_point band sta = nw_11n
nw_type_of other_type band sta = nw_11n

-- The secondary channel's place as in IEEE80211_HT_PARAM_CHA_SEC_.
unfoldable pub ext_channel_of : Radio → ℕ
ext_channel_of wcn = if wcn.is_ht40_minus then 3 else if wcn.is_ht40_plus then 1 else 0

-- The fields up to `wcn36xx_smd_set_bss_ht_params`, then those behind it.
unfoldable pub set_bss_params : Radio → Iface → Option Peer → List ℕ → Bool → BssParams
unfolding bss_mode nw_type_of set_bss_ht_params ext_channel_of set_sta_params
set_bss_params wcn vif sta bssid update =
    let (bss_type, oper_mode, persona) = bss_mode vif.kind in
    let first = record no_bss_params {
      bssid = bssid;
      self_mac_addr = vif.addr;
      bss_type = bss_type;
      oper_mode = oper_mode;
      hal_persona = persona;
      nw_type = nw_code (nw_type_of vif.kind wcn.band sta);
      short_slot_time_supported = vif.conf.use_short_slot;
      lla_coexist = 0;
      llb_coexist = 0;
      llg_coexist = 0;
      rifs_mode = 0;
      beacon_interval = vif.conf.beacon_int;
      dtim_period = vif.dtim_period;
    } in
    record (set_bss_ht_params vif sta first) {
      oper_channel = wcn.channel;
      ext_channel = ext_channel_of wcn;
      reserved = 0;
      sta = set_sta_params wcn vif sta no_sta_params;
      ssid = vif.ssid;
      obss_prot_enabled = 0;
      rmf = 0;
      max_probe_resp_retry_limit = 0;
      hidden_ssid = vif.conf.hidden_ssid;
      proxy_probe_resp = 0;
      edca_params_valid = 0;
      ext_set_sta_key_param_valid = 0;
      spectrum_mgt_enable = 0;
      tx_mgmt_power = 0;
      max_tx_power = wcn.max_power;
      action = if update then 1 else 0;
    }
