-- ===== src/Mac/Bss/Tests.antt =====
-- Runs of the callbacks for networks, scanning and block-ack sessions.
use wcn36xx.Common.{ℕ, List, Option, ◌≡◌, refl, true, false, none, some, [], ◌∷◌, length}
use wcn36xx.Pmc.State.{full_power}
use wcn36xx.Hal.Layout.{frame}
use wcn36xx.Smd.Send.{simple, command}
use wcn36xx.Smd.Receive.{is_one_of}
use wcn36xx.Smd.Link.{join_msg, set_link_st_msg}
use wcn36xx.Smd.Bss.Sample.{radio, vif, sta, answering}
use wcn36xx.Mac.Ops.{prepare_multicast, config}
use wcn36xx.Mac.Bss.{Change, BssState, on_bssid, on_assoc, state_after, bss_info_changed}
use wcn36xx.Mac.Bss.Order.{Sent, bssid_commands, assoc_commands, message_kinds, on_bssid-on_assoc}

abbrev associated : Change
associated = record {
  beacon_info = false;
  ps_changed = false;
  bssid_changed = true;
  ssid_changed = false;
  assoc_changed = true;
  probe_resp_changed = false;
  beacon_enabled_changed = false;
  beacon_changed = false;
  dtim_period = 2;
  ps = false;
  sync_tsf = 0;
  bssid = 2 ∷ 0 ∷ 0 ∷ 0 ∷ 0 ∷ 9 ∷ [];
  ssid = [];
  assoc = true;
  aid = 5;
  enable_beacon = false;
  found = some sta;
  found_rates = record { supp_rates = 15; ht_supported = false; rx_mask = [] };
  proberesp = none;
  beacon = none;
}

abbrev idle : BssState
idle = record { hal = answering []; vif = vif; pw_state = full_power; sta = none }

abbrev sent_kinds : Option BssState → List ℕ
sent_kinds none = []
sent_kinds (some s) = message_kinds s.hal.sent

-- join, config_bss, set_link_st, config_bss and config_sta
order : sent_kinds (bss_info_changed radio associated idle) ≡ 20 ∷ 16 ∷ 44 ∷ 16 ∷ 12 ∷ []
unfolding bss_info_changed simple is_one_of join_msg frame set_link_st_msg
order = refl

two_interfaces : length (config radio true (vif ∷ vif ∷ []) (answering [])).1.sent ≡ 2
unfolding config command is_one_of
two_interfaces = refl

no_memory : prepare_multicast false ((1 ∷ 0 ∷ 94 ∷ 0 ∷ 0 ∷ 1 ∷ []) ∷ []) ≡ none
unfolding prepare_multicast
no_memory = refl

on_bssid-on_assoc_example :
    Sent (bssid_commands associated) idle.hal (state_after (on_bssid radio associated idle)).hal
    × Sent (assoc_commands associated) idle.hal (state_after (on_assoc radio associated idle)).hal
on_bssid-on_assoc_example = on_bssid-on_assoc radio associated idle
