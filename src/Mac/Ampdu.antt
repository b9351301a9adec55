-- ===== src/Mac/Ampdu.antt =====
-- `wcn36xx_ampdu_action` of main.c.
use wcn36xx.Common.{ℕ, List, ◌∷◌, ◌++◌, [], Option, set, Ret, ok}
use wcn36xx.Smd.State.{Hal}
use wcn36xx.Smd.Ba.{smd_add_ba_session, smd_add_ba, smd_del_ba, smd_trigger_ba}
use wcn36xx.Smd.Objects.{Iface, Peer}
use wcn36xx.Mac.Keys.{get_sta_index}
use wcn36xx.Txrx.Ampdu.{AmpduState, ampdu_none, ampdu_start, ampdu_operational, StaTx}

-- `enum ieee80211_ampdu_mlme_action`, and any other number
pub data AmpduAction : Type 0 where
  rx_start rx_stop tx_start tx_operational tx_stop_flush tx_stop_flush_cont tx_stop_cont :
      AmpduAction
  unknown_action : AmpduAction

-- The answers to mac80211: `ieee80211_start_tx_ba_cb_irqsafe` and `ieee80211_stop_tx_ba_cb_irqsafe`.
pub data BaCall : Type 0 where
  started stopped : ℕ → BaCall

-- The station, its states for sending, and the answers so far, oldest first.
pub record Ba : Type 0 where
  pub hal : Hal
  pub sta : Peer
  pub tx : StaTx
  pub calls : List BaCall

unfoldable pub set_state : ℕ → AmpduState → Ba → Ba
set_state tid a b = record b { tx = record b.tx { ampdu_state = set b.tx.ampdu_state tid a } }

unfoldable pub stop_session : ℕ → Ba → Ba
unfolding set_state
stop_session tid b = record (set_state tid ampdu_none b) { calls = b.calls ++ (stopped tid ∷ []) }

unfoldable pub add_session : Iface → ℕ → Option ℕ → ℕ → Ba → Ba
unfolding smd_add_ba_session get_sta_index
add_session vif tid ssn direction b =
    let index = get_sta_index vif.kind b.sta in
    record b { hal = (smd_add_ba_session b.sta.addr tid ssn direction index b.hal).1 }

-- The other two commands for a session in which the driver receives.
unfoldable pub trigger : Iface → Ba → Ba
unfolding smd_add_ba smd_trigger_ba get_sta_index
trigger vif b = record b {
  hal = (smd_trigger_ba (get_sta_index vif.kind b.sta) (smd_add_ba b.hal).1).1;
}

unfoldable pub run_action : Iface → AmpduAction → ℕ → Option ℕ → Ba → Ba
unfolding add_session trigger set_state stop_session smd_del_ba get_sta_index
run_action vif rx_start tid ssn b =
    trigger vif (add_session vif tid ssn 0 (record b { sta = record b.sta { tid = tid } }))
run_action vif rx_stop tid ssn b = record b {
  hal = (smd_del_ba tid (get_sta_index vif.kind b.sta) b.hal).1;
}
run_action vif tx_start tid ssn b = record (set_state tid ampdu_start b) {
  calls = b.calls ++ (started tid ∷ []);
}
run_action vif tx_operational tid ssn b =
    add_session vif tid ssn 1 (set_state tid ampdu_operational b)
run_action vif tx_stop_flush tid ssn b = stop_session tid b
run_action vif tx_stop_flush_cont tid ssn b = stop_session tid b
run_action vif tx_stop_cont tid ssn b = stop_session tid b
run_action vif unknown_action tid ssn b = b

unfoldable pub ampdu_action : Iface → AmpduAction → ℕ → Option ℕ → Ba → Ret × Ba
unfolding run_action
ampdu_action vif action tid ssn b = (ok, run_action vif action tid ssn b)
