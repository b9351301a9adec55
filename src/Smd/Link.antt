-- ===== src/Smd/Link.antt =====
-- The commands of smd.c that join and leave networks.
use wcn36xx.Common.{ℕ, Bool, List, u8, u32, failed, if◌then◌else◌, Ret, ok, err, eio}
use wcn36xx.Hal.MsgType.{
  stop_req, del_sta_self_req, delete_sta_req, join_req, set_link_st_req, delete_bss_req,
}
use wcn36xx.Hal.Enums.{rf_kill, stop_code, LinkState, preassoc_state, link_code}
use wcn36xx.Hal.Layout.{frame, mac, join_body, set_link_state_body}
use wcn36xx.Smd.State.{Hal}
use wcn36xx.Smd.Send.{simple, command, rsp_status_check}

unfoldable pub stop_msg : List ℕ
stop_msg = frame stop_req (u32 (stop_code rf_kill))

unfoldable pub smd_stop : Hal → Ret × Hal
smd_stop h = simple stop_msg h

unfoldable pub delete_sta_self_msg : List ℕ → List ℕ
delete_sta_self_msg addr = frame del_sta_self_req (mac addr)

unfoldable pub smd_delete_sta_self : List ℕ → Hal → Ret × Hal
smd_delete_sta_self addr h = simple (delete_sta_self_msg addr) h

unfoldable pub delete_sta_msg : ℕ → List ℕ
delete_sta_msg sta_index = frame delete_sta_req (u8 sta_index)

unfoldable pub smd_delete_sta : ℕ → Hal → Ret × Hal
smd_delete_sta sta_index h = simple (delete_sta_msg sta_index) h

-- Any failure becomes -EIO here.
unfoldable pub smd_join_rsp : List ℕ → ℕ → Ret
unfolding rsp_status_check
smd_join_rsp buf len = if failed (rsp_status_check buf len) then err eio else ok

-- `enum phy_chan_bond_state` from the channel type of the configuration
unfoldable pub bond_state : Bool → Bool → ℕ
bond_state is_ht40_minus is_ht40_plus = if is_ht40_minus then 3 else if is_ht40_plus then 1 else 0

unfoldable pub join_msg : Bool → Bool → List ℕ → List ℕ → ℕ → List ℕ
unfolding bond_state
join_msg is_ht40_minus is_ht40_plus bssid vif_addr ch = frame join_req (
    join_body bssid ch vif_addr (bond_state is_ht40_minus is_ht40_plus) (link_code preassoc_state)
      0xbf)

unfoldable pub smd_join : Bool → Bool → List ℕ → List ℕ → ℕ → Hal → Ret × Hal
smd_join is_ht40_minus is_ht40_plus bssid vif_addr ch h =
    command (join_msg is_ht40_minus is_ht40_plus bssid vif_addr ch) smd_join_rsp h

unfoldable pub set_link_st_msg : List ℕ → List ℕ → LinkState → List ℕ
set_link_st_msg bssid sta_mac state =
    frame set_link_st_req (set_link_state_body bssid (link_code state) sta_mac)

unfoldable pub smd_set_link_st : List ℕ → List ℕ → LinkState → Hal → Ret × Hal
smd_set_link_st bssid sta_mac state h = simple (set_link_st_msg bssid sta_mac state) h

unfoldable pub delete_bss_msg : ℕ → List ℕ
delete_bss_msg bss_index = frame delete_bss_req (u8 bss_index)

unfoldable pub smd_delete_bss : ℕ → Hal → Ret × Hal
smd_delete_bss bss_index h = simple (delete_bss_msg bss_index) h
