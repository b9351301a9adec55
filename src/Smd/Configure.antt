-- ===== src/Smd/Configure.antt =====
-- The four commands whose messages are built from the structs of mac80211: what they send.
use wcn36xx.Common.{
  ℕ, ◌≡◌, refl, inl, inr, Bool, Bool-cases, List, Option, none, some, length, ◌+◌, if◌then◌else◌,
  arith,
}
use wcn36xx.Hal.MsgType.{
  MsgType, config_sta_req, config_bss_req, add_sta_self_req, multicast_list_req_8023,
}
use wcn36xx.Smd.State.{Hal}
use wcn36xx.Smd.Wire.{messages_of, Sends, sizes, one_simple}
use wcn36xx.Smd.Dispatch.{Request, run_request, kind_of, size_of}
use wcn36xx.Smd.Framed.{run_request-Sends}
use wcn36xx.Smd.Exchange.{exchange-Sends}
use wcn36xx.Smd.Config.{is_fw_version}
use wcn36xx.Smd.Objects.{Iface, Peer, Radio}
use wcn36xx.Smd.Sta.{StaParams}
use wcn36xx.Smd.Sta.Send.{
  config_sta_body, smd_config_sta, add_sta_self_body, smd_add_sta_self, smd_config_sta_rsp,
  smd_add_sta_self_rsp,
}
use wcn36xx.Smd.Bss.{BssParams}
use wcn36xx.Smd.Bss.Fill.{set_bss_params}
use wcn36xx.Smd.Bss.Send.{
  Net, McList, config_bss_body, smd_config_bss, smd_config_bss_rsp, mc_list_body, smd_set_mc_list,
}
use wcn36xx.Smd.Bss.Layouts.{
  sta_params_body-length, sta_params_v1_body-length, bss_params_body-length,
  bss_params_v1_body-length,
}

pub data Configure : Type 0 where
  config_sta : Radio → Iface → Peer → Configure
  config_bss : Radio → Net → List ℕ → Bool → Configure
  add_sta_self : Iface → Configure
  set_mc_list : Iface → Option McList → Configure

unfoldable pub configure : Configure → Hal → Hal
unfolding smd_config_sta smd_config_bss smd_add_sta_self smd_set_mc_list
configure (config_sta wcn vif sta) h = (smd_config_sta wcn vif sta h).1
configure (config_bss wcn net bssid update) h = (smd_config_bss wcn net bssid update h).1
configure (add_sta_self vif) h = (smd_add_sta_self vif h).1
configure (set_mc_list vif fp) h = (smd_set_mc_list vif fp h).1

unfoldable pub configure_kind : Configure → MsgType
configure_kind (config_sta wcn vif sta) = config_sta_req
configure_kind (config_bss wcn net bssid update) = config_bss_req
configure_kind (add_sta_self vif) = add_sta_self_req
configure_kind (set_mc_list vif fp) = multicast_list_req_8023

-- `sizeof` of the request structs, by the version of the firmware.
unfoldable pub configure_size : Configure → ℕ
unfolding is_fw_version
configure_size (config_sta wcn vif sta) = if is_fw_version wcn.info 1 2 2 24 then 113 else 114
configure_size (config_bss wcn net bssid update) =
    if is_fw_version wcn.info 1 2 2 24 then 469 else 470
configure_size (add_sta_self vif) = 18
configure_size (set_mc_list vif fp) = 1454

sta_size :
    (wcn : Radio) (p : StaParams)
    → 8 + length (config_sta_body wcn p) ≡ (if is_fw_version wcn.info 1 2 2 24 then 113 else 114)
unfolding config_sta_body
sta_size wcn p = elim (Bool-cases (is_fw_version wcn.info 1 2 2 24)) [
  | inl e ↦ rw e (omega (arith, sta_params_body-length p))
  | inr e ↦ rw e (omega (arith, sta_params_v1_body-length _))
]

bss_size :
    (wcn : Radio) (p : BssParams)
    → 8 + length (config_bss_body wcn p) ≡ (if is_fw_version wcn.info 1 2 2 24 then 469 else 470)
unfolding config_bss_body
bss_size wcn p = elim (Bool-cases (is_fw_version wcn.info 1 2 2 24)) [
  | inl e ↦ rw e (omega (arith, bss_params_body-length p))
  | inr e ↦ rw e (omega (arith, bss_params_v1_body-length _))
]

mc_size : (fp : Option McList) (i : ℕ) → 8 + length (mc_list_body fp i) ≡ 1454
unfolding mc_list_body
mc_size none i = refl
mc_size (some fp) i = simp sizes

-- Each of config_sta, config_bss, add_sta_self and set_mc_list hands exactly one message to the
-- transport, well framed, of its own type and of the size of its struct; config_sta and config_bss
-- have one byte more for every firmware but 1.2.2.24.
pub configure-Sends :
    (r : Configure) (h : Hal) → Sends (configure_kind r) (configure_size r) 1 h (configure r h)
unfolding configure configure_kind configure_size smd_config_sta smd_config_bss smd_add_sta_self
    smd_set_mc_list add_sta_self_body
configure-Sends (config_sta wcn vif sta) h =
    exchange-Sends config_sta_req _ _ smd_config_sta_rsp sta h (sta_size wcn _) (ground arith)
configure-Sends (config_bss wcn net bssid update) h =
    exchange-Sends config_bss_req _ _ smd_config_bss_rsp net h
      (bss_size wcn (set_bss_params wcn net.vif net.sta bssid update)) (ground arith)
configure-Sends (add_sta_self vif) h =
    exchange-Sends add_sta_self_req _ 18 smd_add_sta_self_rsp vif h (simp sizes) (omega arith)
configure-Sends (set_mc_list vif fp) h = one_simple _ _ _ h (mc_size fp vif.bss_index) (omega arith)

-- Each of the 25 commands sends exactly one message with its type, version 0 and a length that is its
-- struct's size and the number of bytes sent; a keep-alive of an unknown kind sends none. So does each
-- of config_sta, config_bss, add_sta_self and set_mc_list; config_sta and config_bss have one byte
-- more for every firmware but 1.2.2.24.
pub run_request-configure :
    (q : Request) (r : Configure) (h : Hal)
    → Sends (kind_of q) (size_of q) (messages_of q) h (run_request q h).1
      × Sends (configure_kind r) (configure_size r) 1 h (configure r h)
run_request-configure q r h = (run_request-Sends q h, configure-Sends r h)
