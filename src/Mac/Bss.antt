-- ===== src/Mac/Bss.antt =====
-- `wcn36xx_bss_info_changed` of main.c.
pub mod Order
mod Tests
use wcn36xx.Common.{
  ℕ, Bool, true, false, ◌||◌, ◌&&◌, ◌==◌, if◌then◌else◌, Option, none, some, List, [], ◌∷◌, Ret,
}
use wcn36xx.Hal.Enums.{
  ed_none, bss_invalid_idx, LinkState, idle_state, postassoc_state, ap_state, ibss_state,
}
use wcn36xx.Mac.Rates.{Sta, update_allowed_rates}
use wcn36xx.Pmc.State.{PowerState, enter_bmps_state, exit_bmps_state}
use wcn36xx.Smd.State.{Hal}
use wcn36xx.Smd.Beacon.{smd_send_beacon, smd_update_proberesp_tmpl}
use wcn36xx.Smd.Link.{smd_join, smd_delete_bss, smd_set_link_st}
use wcn36xx.Smd.Objects.{IfType, station, ap, adhoc, mesh_point, other_type, Iface, Peer, Radio}
use wcn36xx.Smd.Sta.Send.{smd_config_sta}
use wcn36xx.Smd.Bss.Send.{smd_config_bss}

-- What is read of `changed` and of `bss_conf`, beside what the interface keeps of it, and what
-- mac80211 gives: the station that `ieee80211_find_sta` finds with what its rates are taken from, the
-- probe response, and the beacon with the place of its TIM.
pub record Change : Type 0 where
  pub beacon_info : Bool
  pub ps_changed : Bool
  pub bssid_changed : Bool
  pub ssid_changed : Bool
  pub assoc_changed : Bool
  pub probe_resp_changed : Bool
  pub beacon_enabled_changed : Bool
  pub beacon_changed : Bool
  pub dtim_period : ℕ
  pub ps : Bool
  pub sync_tsf : ℕ
  pub bssid : List ℕ
  pub ssid : List ℕ
  pub assoc : Bool
  pub aid : ℕ
  pub enable_beacon : Bool
  pub found : Option Peer
  pub found_rates : Sta
  pub proberesp : Option (List ℕ)
  pub beacon : Option (List ℕ × ℕ)

-- The interface with its power state, and the station as the callback leaves it.
pub record BssState : Type 0 where
  pub hal : Hal
  pub vif : Iface
  pub pw_state : PowerState
  pub sta : Option Peer

-- `goto out` ends the callback. `fault` is a write outside a message, with the state before it.
pub data Flow : Type 0 where
  go : BssState → Flow
  out : BssState → Flow
  fault : BssState → Flow

abbrev pub then_do : Flow → (BssState → Flow) → Flow
then_do (go s) f = f s
then_do (out s) f = out s
then_do (fault s) f = fault s

abbrev pub when : Bool → (BssState → Flow) → BssState → Flow
when b f s = if b then f s else go s

unfoldable pub on_beacon_info : Change → BssState → Flow
on_beacon_info c s = go (record s { vif = record s.vif { dtim_period = c.dtim_period } })

-- The results of pmc.c are dropped.
unfoldable pub on_ps : Change → BssState → Flow
unfolding enter_bmps_state exit_bmps_state
on_ps c s =
    let v : wcn36xx.Pmc.State.Vif = record {
      bss_index = s.vif.bss_index;
      sync_tsf = c.sync_tsf;
      dtim_period = s.vif.dtim_period;
      pw_state = s.pw_state;
    } in
    let (ret, v', h) = if c.ps then enter_bmps_state v s.hal else exit_bmps_state v s.hal in
    go (record s { pw_state = v'.pw_state; hal = h })

abbrev pub is_zero_addr : List ℕ → Bool
is_zero_addr [] = true
is_zero_addr (x ∷ xs) = x == 0 && is_zero_addr xs

unfoldable pub configure_bss : Radio → Option Peer → List ℕ → Bool → BssState → BssState
unfolding smd_config_bss
configure_bss wcn sta bssid update s =
    let (ret, h, net) = smd_config_bss wcn (record { vif = s.vif; sta = sta }) bssid update s.hal in
    record s { hal = h; vif = net.vif; sta = net.sta }

-- A new network is joined and configured; no network is left.
unfoldable pub join_bss : Radio → Change → BssState → BssState
unfolding smd_join configure_bss
join_bss wcn c s =
    let vif : Iface = record s.vif { is_joining = true; bss_index = bss_invalid_idx } in
    let joined = smd_join wcn.is_ht40_minus wcn.is_ht40_plus c.bssid vif.addr wcn.channel s.hal in
    let after = configure_bss wcn none c.bssid false (record s { vif = vif; hal = joined.1 }) in
    record after { sta = s.sta }

unfoldable pub leave_bss : BssState → BssState
unfolding smd_delete_bss
leave_bss s = record s {
  hal = (smd_delete_bss s.vif.bss_index s.hal).1;
  vif = record s.vif { is_joining = false; encrypt_type = ed_none };
}

unfoldable pub on_bssid : Radio → Change → BssState → Flow
unfolding join_bss leave_bss
on_bssid wcn c s = go (if is_zero_addr c.bssid then leave_bss s else join_bss wcn c s)

-- An SSID has at most 32 bytes.
unfoldable pub on_ssid : Change → BssState → Flow
on_ssid c s = go (record s { vif = record s.vif { ssid = c.ssid } })

unfoldable pub set_link : List ℕ → LinkState → BssState → BssState
unfolding smd_set_link_st
set_link bssid state s = record s { hal = (smd_set_link_st bssid s.vif.addr state s.hal).1 }

-- The station is configured last, once its AID is known.
unfoldable pub configure_sta : Radio → ℕ → Option Peer → BssState → BssState
unfolding smd_config_sta
configure_sta wcn aid none s = s
configure_sta wcn aid (some sta) s =
    let (ret, h, sta') = smd_config_sta wcn s.vif (record sta { aid = aid }) s.hal in
    record s { hal = h; sta = some sta' }

-- Without the station of the network the callback ends.
unfoldable pub associate : Radio → Change → Option Peer → BssState → Flow
unfolding update_allowed_rates set_link configure_bss configure_sta
associate wcn c none s = out s
associate wcn c (some sta) s =
    let rated : Peer = record sta {
      supported_rates = update_allowed_rates wcn.band c.found_rates;
    } in
    let linked = set_link c.bssid postassoc_state s in
    let configured = configure_bss wcn (some rated) c.bssid true linked in
    go (configure_sta wcn c.aid configured.sta configured)

unfoldable pub on_assoc : Radio → Change → BssState → Flow
unfolding associate set_link
on_assoc wcn c s =
    let vif : Iface = record s.vif { is_joining = false; sta_assoc = c.assoc } in
    let s' : BssState = record s { vif = vif } in
    if c.assoc then associate wcn c c.found s' else go (set_link c.bssid idle_state s')

unfoldable pub on_proberesp : Option (List ℕ) → BssState → Flow
unfolding smd_update_proberesp_tmpl
on_proberesp none s = out s
on_proberesp (some skb) s =
    go (record s { hal = (smd_update_proberesp_tmpl s.vif.addr skb s.hal).1 })

abbrev pub is_mesh : IfType → Bool
is_mesh mesh_point = true
is_mesh _ = false

abbrev pub beacon_link : IfType → LinkState
beacon_link adhoc = ibss_state
beacon_link mesh_point = ibss_state
beacon_link _ = ap_state

unfoldable pub after_beacon : Option (Ret × Hal) → BssState → Flow
unfolding set_link
after_beacon none s = fault s
after_beacon (some sent) s =
    go (set_link s.vif.addr (beacon_link s.vif.kind) (record s { hal = sent.1 }))

-- The beacon that mac80211 makes, after the BSS is configured.
unfoldable pub send_beacon_of : Option (List ℕ × ℕ) → BssState → Flow
unfolding smd_send_beacon after_beacon
send_beacon_of none s = out s
send_beacon_of (some (skb, tim_off)) s =
    after_beacon (smd_send_beacon (is_mesh s.vif.kind) s.vif.addr skb tim_off 0 s.hal) s

unfoldable pub on_beacon : Radio → Change → BssState → Flow
unfolding configure_bss send_beacon_of set_link smd_delete_bss
on_beacon wcn c s =
    let vif : Iface = record s.vif { dtim_period = c.dtim_period; bss_index = bss_invalid_idx } in
    let enabled = configure_bss wcn none vif.addr false (record s { vif = vif }) in
    let idle = set_link s.vif.addr idle_state s in
    if c.enable_beacon
    then send_beacon_of c.beacon (record enabled { sta = s.sta })
    else go (record idle { hal = (smd_delete_bss s.vif.bss_index idle.hal).1 })

-- The state that a part leaves, or that it had before the fault.
unfoldable pub state_after : Flow → BssState
state_after (go s) = s
state_after (out s) = s
state_after (fault s) = s

-- The state at the end of the callback; a fault has none.
unfoldable pub ended : Flow → Option BssState
ended (go s) = some s
ended (out s) = some s
ended (fault s) = none

unfoldable pub bss_info_changed : Radio → Change → BssState → Option BssState
unfolding on_beacon_info on_ps on_bssid on_ssid on_assoc on_proberesp on_beacon ended
bss_info_changed wcn c s =
    let s1 = when c.beacon_info (on_beacon_info c) s in
    let s2 = then_do s1 (when c.ps_changed (on_ps c)) in
    let s3 = then_do s2 (when c.bssid_changed (on_bssid wcn c)) in
    let s4 = then_do s3 (when c.ssid_changed (on_ssid c)) in
    let s5 = then_do s4 (when c.assoc_changed (on_assoc wcn c)) in
    let s6 = then_do s5 (when c.probe_resp_changed (on_proberesp c.proberesp)) in
    let s7 = then_do s6 (when (c.beacon_enabled_changed || c.beacon_changed) (on_beacon wcn c)) in
    ended s7
