-- ===== src/Smd/Sta/Fill.antt =====
-- `wcn36xx_smd_set_sta_params` of smd.c and the parts that it calls.
use wcn36xx.Common.{Bool, true, false, Option, none, some, bit_at, if◌then◌else◌}
use wcn36xx.Hal.Enums.{sta_invalid_idx}
use wcn36xx.Mac.Rates.{set_default_rates}
use wcn36xx.Smd.Objects.{IfType, station, ap, adhoc, mesh_point, other_type, Iface, Peer, Radio}
use wcn36xx.Smd.Sta.{StaParams}

-- `is_cap_supported` of the bits of the HT capabilities.
unfoldable pub set_sta_ht_params : Peer → StaParams → StaParams
set_sta_ht_params sta p =
    let caps = sta.ht_cap.cap in
    if sta.ht_cap.ht_supported
    then record p {
      ht_capable = 1;
      tx_channel_width_set = bit_at 1 caps;
      lsig_txop_protection = bit_at 15 caps;
      max_ampdu_size = sta.ht_cap.ampdu_factor;
      max_ampdu_density = sta.ht_cap.ampdu_density;
      max_amsdu_size = bit_at 11 caps;
      sgi_20mhz = bit_at 5 caps;
      sgi_40mhz = bit_at 6 caps;
      green_field_capable = bit_at 4 caps;
      delayed_ba_support = bit_at 10 caps;
      dsss_cck_mode_40mhz = bit_at 12 caps;
    }
    else p

unfoldable pub set_sta_default_ht_params : StaParams → StaParams
set_sta_default_ht_params p = record p {
  ht_capable = 1;
  tx_channel_width_set = 1;
  lsig_txop_protection = 1;
  max_ampdu_size = 3;
  max_ampdu_density = 5;
  max_amsdu_size = 0;
  sgi_20mhz = 1;
  sgi_40mhz = 1;
  green_field_capable = 1;
  delayed_ba_support = 0;
  dsss_cck_mode_40mhz = 1;
}

abbrev pub is_station : IfType → Bool
is_station station = true
is_station ap = false
is_station adhoc = false
is_station mesh_point = false
is_station other_type = false

-- Whether the interface is the one of a network of its own.
abbrev pub owns_bss : IfType → Bool
owns_bss station = false
owns_bss ap = true
owns_bss adhoc = true
owns_bss mesh_point = true
owns_bss other_type = false

-- The parameters that come from the interface and the device.
unfoldable pub set_vif_params : Radio → Iface → StaParams → StaParams
set_vif_params wcn vif p =
    let own = owns_bss vif.kind in
    let sta = is_station vif.kind in
    record p {
      sta_type = if own then 1 else 0;
      sta_index = if own then sta_invalid_idx else vif.self_sta_index;
      listen_interval = wcn.listen_interval;
      mac = if sta then vif.addr else p.mac;
      bssid = if sta then p.bssid else vif.addr;
      encrypt_type = vif.encrypt_type;
      short_preamble_supported = if wcn.short_preamble then 1 else 0;
      rifs_mode = 0;
      rmf = 0;
      action = 0;
      uapsd = 0;
      mimo_ps = 0;
      max_ampdu_duration = 0;
      bssid_index = vif.bss_index;
      p2p = 0;
    }

-- Those that come from the station, or the defaults.
unfoldable pub set_peer_params : IfType → Option Peer → StaParams → StaParams
unfolding set_sta_ht_params set_sta_default_ht_params set_default_rates
set_peer_params kind (some sta) p =
    let addressed = record p {
      bssid = if is_station kind then sta.addr else p.bssid;
      mac = if is_station kind then p.mac else sta.addr;
      wmm_enabled = sta.wme;
      max_sp_len = sta.max_sp;
      aid = sta.aid;
    } in
    record (set_sta_ht_params sta addressed) { supported_rates = sta.supported_rates }
set_peer_params kind none p =
    set_sta_default_ht_params (record p { supported_rates = set_default_rates p.supported_rates })

unfoldable pub set_sta_params : Radio → Iface → Option Peer → StaParams → StaParams
unfolding set_vif_params set_peer_params
set_sta_params wcn vif sta p = set_peer_params vif.kind sta (set_vif_params wcn vif p)
