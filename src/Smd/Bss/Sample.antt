-- ===== src/Smd/Bss/Sample.antt =====
-- An interface, a station and a device for the runs.
use wcn36xx.Common.{ℕ, true, false, List, [], ◌∷◌, some, zeros}
use wcn36xx.Hal.Enums.{ed_ccmp}
use wcn36xx.Mac.Rates.{band_2ghz, no_rates}
use wcn36xx.Smd.State.{Hal, accepted}
use wcn36xx.Smd.Config.{FwInfo}
use wcn36xx.Smd.Objects.{station, Iface, Peer, Radio}
use wcn36xx.Smd.Bss.Send.{Net}

abbrev pub old_firmware : FwInfo
old_firmware = record {
  crm_version = [];
  wlan_version = [];
  fw_revision = 4;
  fw_version = 2;
  fw_minor = 2;
  fw_major = 1;
}

abbrev pub radio : Radio
radio = record {
  listen_interval = 5;
  short_preamble = true;
  band = band_2ghz;
  channel = 6;
  is_ht40_minus = false;
  is_ht40_plus = false;
  max_power = 20;
  info = old_firmware;
}

abbrev pub vif : Iface
vif = record {
  kind = station;
  addr = 2 ∷ 0 ∷ 0 ∷ 0 ∷ 0 ∷ 1 ∷ [];
  conf = record { use_short_slot = 1; beacon_int = 100; ht_operation_mode = 4; hidden_ssid = 0 };
  dtim_period = 3;
  encrypt_type = ed_ccmp;
  is_joining = false;
  sta_assoc = false;
  ssid = 97 ∷ 98 ∷ [];
  bss_index = 255;
  self_sta_index = 1;
  self_dpu_desc_index = 2;
  self_ucast_dpu_sign = 0;
}

abbrev pub sta : Peer
sta = record {
  addr = 2 ∷ 0 ∷ 0 ∷ 0 ∷ 0 ∷ 9 ∷ [];
  wme = 1;
  max_sp = 0;
  rates_2ghz = 15;
  ht_cap = record { ht_supported = true; cap = 2082; ampdu_factor = 3; ampdu_density = 5 };
  aid = 1;
  tid = 0;
  sta_index = 0;
  dpu_desc_index = 0;
  ucast_dpu_sign = 0;
  bss_sta_index = 0;
  bss_dpu_desc_index = 0;
  is_data_encrypted = false;
  supported_rates = no_rates;
}

abbrev pub net : Net
net = record { vif = vif; sta = some sta }

-- The transport takes a command and the firmware answers with `m`.
abbrev pub answering : List ℕ → Hal
answering m = record {
  buf = zeros 40;
  rsp_len = 0;
  completed = false;
  ind_queue = [];
  ind_pending = false;
  sent = [];
  replies = accepted (m ∷ []) ∷ [];
  allocs = [];
}
