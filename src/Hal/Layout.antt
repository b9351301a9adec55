-- ===== src/Hal/Layout.antt =====
-- The packed request structs of hal.h as byte strings, field by field in the structs' order.
-- `frame` is INIT_HAL_MSG of smd.c: the header with the type, version 0 and `sizeof(msg_body)`.
use wcn36xx.Common.{ℕ, ◌+◌, ◌*◌, List, ◌++◌, length, take, u8, u16, u32, u64, field, zeros}
use wcn36xx.Hal.MsgType.{MsgType, msg_code}
use wcn36xx.Hal.Enums.{EdType, ed_code, KeyDirection, direction_code}

abbrev pub header_size : ℕ
header_size = 8

-- `struct wcn36xx_hal_msg_header`
unfoldable pub header : MsgType → ℕ → List ℕ
unfolding msg_code
header t len = u16 (msg_code t) ++ u16 0 ++ u32 len

unfoldable pub frame : MsgType → List ℕ → List ℕ
unfolding header
frame t body = header t (header_size + length body) ++ body

-- An Ethernet address.
abbrev pub mac : List ℕ → List ℕ
mac a = field 6 a

-- `struct wcn36xx_hal_mac_mgmt_hdr` and `struct wcn36xx_hal_scan_entry`, left zero by the driver
abbrev pub mgmt_hdr_size : ℕ
mgmt_hdr_size = 24

abbrev pub scan_entry_size : ℕ
scan_entry_size = 3

-- `struct wcn36xx_hal_init_scan_req_msg`: mode, bssid, notify, frame_type, frame_len, header, entry
unfoldable pub init_scan_body : ℕ → List ℕ
init_scan_body mode = u32 mode ++ zeros (6 + 1 + 1 + 1 + mgmt_hdr_size + scan_entry_size)

-- `struct wcn36xx_hal_finish_scan_req_msg`: mode, oper_channel, cb_state, bssid, notify, frame_type,
-- frame_length, header, entry
unfoldable pub finish_scan_body : ℕ → List ℕ
finish_scan_body mode = u32 mode ++ zeros (1 + 4 + 6 + 1 + 1 + 1 + mgmt_hdr_size + scan_entry_size)

-- `struct wcn36xx_hal_switch_channel_req_msg`
unfoldable pub switch_channel_body : ℕ → ℕ → ℕ → List ℕ → List ℕ
switch_channel_body channel_number tx_mgmt_power max_tx_power self_sta_mac_addr =
    u8 channel_number
    ++ u8 0
    ++ u32 0
    ++ u8 tx_mgmt_power
    ++ u8 max_tx_power
    ++ mac self_sta_mac_addr
    ++ zeros 6

-- `struct wcn36xx_hal_update_scan_params_req`
unfoldable pub update_scan_params_body : ℕ → ℕ → ℕ → ℕ → ℕ → ℕ → ℕ → ℕ → List ℕ
update_scan_params_body dot11d_enabled dot11d_resolved channel_count active_min active_max
      passive_min passive_max state =
    u8 dot11d_enabled
    ++ u8 dot11d_resolved
    ++ u8 channel_count
    ++ zeros 26
    ++ u16 active_min
    ++ u16 active_max
    ++ u16 passive_min
    ++ u16 passive_max
    ++ u32 state

-- `struct wcn36xx_hal_join_req_msg`
unfoldable pub join_body : List ℕ → ℕ → List ℕ → ℕ → ℕ → ℕ → List ℕ
join_body bssid channel self_sta_mac_addr secondary_channel_offset link_state max_tx_power =
    mac bssid
    ++ u8 channel
    ++ mac self_sta_mac_addr
    ++ u8 0
    ++ u32 secondary_channel_offset
    ++ u32 link_state
    ++ u8 max_tx_power

-- `struct wcn36xx_hal_set_link_state_req_msg`
unfoldable pub set_link_state_body : List ℕ → ℕ → List ℕ → List ℕ
set_link_state_body bssid state self_mac_addr = mac bssid ++ u32 state ++ mac self_mac_addr

-- `struct wcn36xx_hal_keys`
abbrev pub key_size : ℕ
key_size = 57

unfoldable pub keys : ℕ → ℕ → KeyDirection → ℕ → List ℕ → List ℕ
keys id unicast direction len key =
    u8 id
    ++ u8 unicast
    ++ u32 (direction_code direction)
    ++ zeros 16
    ++ u8 0
    ++ u16 len
    ++ field 32 (take len key)

-- `struct wcn36xx_hal_set_sta_key_params`: one of the four default keys is filled in
unfoldable pub set_stakey_body : ℕ → EdType → List ℕ → ℕ → List ℕ
set_stakey_body sta_index enc_type key single_tid_rc =
    u16 sta_index
    ++ u32 (ed_code enc_type)
    ++ u32 0
    ++ u8 0
    ++ field (4 * key_size) key
    ++ u8 single_tid_rc

-- `struct wcn36xx_hal_set_bss_key_req_msg`
unfoldable pub set_bsskey_body : ℕ → EdType → ℕ → List ℕ → List ℕ
set_bsskey_body bss_idx enc_type num_keys key =
    u8 bss_idx ++ u32 (ed_code enc_type) ++ u8 num_keys ++ field (4 * key_size) key ++ u8 0

-- `struct wcn36xx_hal_remove_sta_key_req_msg`
unfoldable pub remove_stakey_body : ℕ → EdType → ℕ → List ℕ
remove_stakey_body sta_idx enc_type key_id =
    u16 sta_idx ++ u32 (ed_code enc_type) ++ u8 key_id ++ u8 0

-- `struct wcn36xx_hal_remove_bss_key_req_msg`
unfoldable pub remove_bsskey_body : ℕ → EdType → ℕ → List ℕ
remove_bsskey_body bss_idx enc_type key_id =
    u8 bss_idx ++ u32 (ed_code enc_type) ++ u8 key_id ++ u32 0

-- `struct wcn36xx_hal_enter_bmps_req_msg`
unfoldable pub enter_bmps_body : ℕ → ℕ → ℕ → List ℕ
enter_bmps_body bss_index tbtt dtim_period =
    u8 bss_index ++ u64 tbtt ++ u8 0 ++ u8 dtim_period ++ u32 0 ++ u32 0 ++ u8 0

-- `struct wcn36xx_hal_exit_bmps_req_msg`
unfoldable pub exit_bmps_body : ℕ → List ℕ
exit_bmps_body bss_index = u8 0 ++ u8 bss_index

-- `struct wcn36xx_hal_set_power_params_req_msg`
unfoldable pub set_power_params_body : ℕ → ℕ → ℕ → List ℕ
set_power_params_body ignore_dtim dtim_period listen_interval =
    u32 ignore_dtim ++ u32 dtim_period ++ u32 listen_interval ++ u32 0 ++ u32 0 ++ u32 0

-- `struct wcn36xx_hal_keep_alive_req_msg`
unfoldable pub keep_alive_body : ℕ → ℕ → ℕ → List ℕ
keep_alive_body packet_type time_period bss_index =
    u8 packet_type ++ u32 time_period ++ zeros 4 ++ zeros 4 ++ zeros 6 ++ u8 bss_index

-- `struct wcn36xx_hal_add_ba_session_req_msg`
unfoldable pub add_ba_session_body : ℕ → List ℕ → ℕ → ℕ → ℕ → ℕ → ℕ → ℕ → ℕ → List ℕ
add_ba_session_body sta_index mac_addr dialog_token tid policy buffer_size timeout ssn direction =
    u16 sta_index
    ++ mac mac_addr
    ++ u8 dialog_token
    ++ u8 tid
    ++ u8 policy
    ++ u16 buffer_size
    ++ u16 timeout
    ++ u16 ssn
    ++ u8 direction

-- `struct wcn36xx_hal_del_ba_req_msg`
unfoldable pub del_ba_body : ℕ → ℕ → ℕ → List ℕ
del_ba_body sta_index tid direction = u16 sta_index ++ u8 tid ++ u8 direction

-- `struct wcn36xx_hal_nv_img_download_req_msg` after its header
unfoldable pub nv_body : ℕ → ℕ → ℕ → List ℕ
nv_body frag_number last_fragment nv_img_buffer_size =
    u16 frag_number ++ u16 last_fragment ++ u32 nv_img_buffer_size

-- `struct wcn36xx_hal_send_probe_resp_req_msg`, which is not packed: two bytes pad its end
unfoldable pub probe_resp_body : List ℕ → ℕ → List ℕ → List ℕ
probe_resp_body template len bssid =
    field 380 template ++ u32 len ++ zeros (4 * 8) ++ mac bssid ++ zeros 2

-- `struct wcn36xx_hal_send_beacon_req_msg`
unfoldable pub send_beacon_body : ℕ → ℕ → List ℕ → List ℕ → ℕ → ℕ → List ℕ
send_beacon_body beacon_length6 beacon_length beacon bssid tim_ie_offset p2p_ie_offset =
    u32 beacon_length6
    ++ u32 beacon_length
    ++ field 380 beacon
    ++ mac bssid
    ++ u32 tim_ie_offset
    ++ u16 p2p_ie_offset
