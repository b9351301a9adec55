-- ===== src/Mac/Ops.antt =====
-- The callbacks of main.c for scanning, the configuration, interfaces, stations and sleep.
use wcn36xx.Common.{
  ℕ, zero, suc, ◌%◌, Bool, true, false, ◌&&◌, ◌==◌, leb, if◌then◌else◌, Option, none, some, List,
  [], ◌∷◌, ◌++◌, length, Ret, ok, err, eopnotsupp,
}
use wcn36xx.Hal.Enums.{scan}
use wcn36xx.Hal.Layout.{mac}
use wcn36xx.Mac.Rates.{Sta, update_allowed_rates}
use wcn36xx.Smd.State.{Hal}
use wcn36xx.Smd.Config.{smd_update_cfg}
use wcn36xx.Smd.Ind.{IndState, run_ind_wq}
use wcn36xx.Smd.Link.{smd_delete_sta_self, smd_delete_sta}
use wcn36xx.Smd.Power.{smd_set_power_params}
use wcn36xx.Smd.Scan.{
  smd_init_scan, smd_start_scan, smd_end_scan, smd_finish_scan, smd_switch_channel,
}
use wcn36xx.Smd.Objects.{IfType, station, ap, adhoc, mesh_point, other_type, Iface, Peer, Radio}
use wcn36xx.Smd.Sta.Fill.{is_station}
use wcn36xx.Smd.Sta.Send.{smd_add_sta_self, smd_config_sta}
use wcn36xx.Smd.Bss.Send.{McList, smd_set_mc_list}

unfoldable pub sw_scan_start : Radio → Hal → Hal
unfolding smd_init_scan smd_start_scan
sw_scan_start wcn h = (smd_start_scan wcn.channel (smd_init_scan scan h).1).1

unfoldable pub sw_scan_complete : Radio → Hal → Hal
unfolding smd_end_scan smd_finish_scan
sw_scan_complete wcn h = (smd_finish_scan scan (smd_end_scan wcn.channel h).1).1

-- WCN36XX_HAL_CFG_RTS_THRESHOLD
abbrev pub cfg_rts_threshold : ℕ
cfg_rts_threshold = 11

unfoldable pub set_rts_threshold : ℕ → Hal → Ret × Hal
unfolding smd_update_cfg
set_rts_threshold value h = (ok, (smd_update_cfg cfg_rts_threshold value h).1)

-- The interfaces of `vif_list`, one after the other.
unfoldable pub switch_all : ℕ → List Iface → Hal → Hal
unfolding smd_switch_channel
switch_all ch [] h = h
switch_all ch (vif ∷ vifs) h = switch_all ch vifs (smd_switch_channel vif.addr ch h).1

-- `change_channel` is the flag IEEE80211_CONF_CHANGE_CHANNEL.
unfoldable pub config : Radio → Bool → List Iface → Hal → Ret × Hal
unfolding switch_all
config wcn change_channel vifs h = (ok, if change_channel then switch_all wcn.channel vifs h else h)

-- `*total &= WCN36XX_SUPPORTED_FILTERS`: FIF_PROMISC_IN_BSS and FIF_ALLMULTI are the two lowest bits.
abbrev pub supported_filters : ℕ → ℕ
supported_filters total = total % 4

-- One interface of the loop: the address list for a station that is associated, none when all
-- multicast frames are wanted.
unfoldable pub filter_iface : Bool → Option McList → Iface → Hal → Hal
unfolding smd_set_mc_list
filter_iface all_multi fp vif h =
    if all_multi
    then (smd_set_mc_list vif none h).1
    else if is_station vif.kind && vif.sta_assoc
    then (smd_set_mc_list vif fp h).1
    else h

unfoldable pub filter_ifaces : Bool → Option McList → List Iface → Hal → Hal
unfolding filter_iface
filter_ifaces all_multi fp [] h = h
filter_ifaces all_multi fp (vif ∷ vifs) h =
    filter_ifaces all_multi fp vifs (filter_iface all_multi fp vif h)

-- The filters that the driver keeps, and the state after the commands.
unfoldable pub configure_filter : ℕ → Option McList → List Iface → Hal → ℕ × Hal
unfolding filter_ifaces
configure_filter total fp vifs h =
    let kept = supported_filters total in
    (kept, filter_ifaces (if kept == 0 then false else true) fp vifs h)

-- The addresses one behind the other.
unfoldable pub mac_bytes : List (List ℕ) → List ℕ
mac_bytes [] = []
mac_bytes (a ∷ rest) = mac a ++ mac_bytes rest

-- WCN36XX_HAL_MAX_NUM_MULTICAST_ADDRESS
abbrev pub max_multicast : ℕ
max_multicast = 240

-- `mem` is whether `kzalloc` has memory. A list that is too long is left empty.
unfoldable pub prepare_multicast : Bool → List (List ℕ) → Option McList
unfolding mac_bytes
prepare_multicast mem mc_list =
    let fits = leb (length mc_list) max_multicast in
    if mem
    then some (record {
      data_offset = 0;
      mc_addr_count = if fits then length mc_list else 0;
      mc_addrs = if fits then mac_bytes mc_list else [];
    })
    else none

abbrev pub is_supported_type : IfType → Bool
is_supported_type station = true
is_supported_type ap = true
is_supported_type adhoc = true
is_supported_type mesh_point = true
is_supported_type other_type = false

-- The new interface is the first of `vif_list`. The result of the command is dropped.
unfoldable pub add_interface : Iface → List Iface → Hal → Ret × List Iface × Hal
unfolding smd_add_sta_self
add_interface vif vifs h =
    let (ret, h', vif') = smd_add_sta_self vif h in
    if is_supported_type vif.kind then (ok, vif' ∷ vifs, h') else (err eopnotsupp, vifs, h)

-- `list_del` of the place `i`.
abbrev pub delete_at {ℓ} : {A : Type ℓ} → ℕ → List A → List A
delete_at i [] = []
delete_at zero (x ∷ xs) = xs
delete_at (suc i) (x ∷ xs) = x ∷ delete_at i xs

unfoldable pub remove_interface : ℕ → Iface → List Iface → Hal → List Iface × Hal
unfolding smd_delete_sta_self
remove_interface i vif vifs h = (delete_at i vifs, (smd_delete_sta_self vif.addr h).1)

-- `sta` is what the rates are taken from, `aid` its association identifier. In station mode the AID is
-- not there yet, and nothing is configured.
unfoldable pub sta_add : Radio → Iface → Sta → ℕ → Peer → Hal → Ret × Hal × Peer
unfolding update_allowed_rates smd_config_sta
sta_add wcn vif sta aid peer h =
    let rates = update_allowed_rates wcn.band sta in
    let (ret, h', peer') =
      smd_config_sta wcn vif (record peer { supported_rates = rates; aid = aid }) h in
    if is_station vif.kind then (ok, h, peer) else (ok, h', peer')

unfoldable pub sta_remove : Peer → Hal → Ret × Hal
unfolding smd_delete_sta
sta_remove peer h = (ok, (smd_delete_sta peer.sta_index h).1)

-- `flush_workqueue`, then `wcn36xx_smd_set_power_params`.
unfoldable pub power_after : Bool → Radio → Option IndState → Option (Ret × IndState)
unfolding smd_set_power_params
power_after ignore_dtim wcn none = none
power_after ignore_dtim wcn (some s) =
    some (ok, record s { hal = (smd_set_power_params ignore_dtim wcn.listen_interval s.hal).1 })

unfoldable pub suspend : Radio → IndState → Option (Ret × IndState)
unfolding run_ind_wq power_after
suspend wcn s = power_after true wcn (run_ind_wq s)

unfoldable pub resume : Radio → IndState → Option (Ret × IndState)
unfolding run_ind_wq power_after
resume wcn s = power_after false wcn (run_ind_wq s)
