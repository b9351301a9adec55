-- ===== src/Smd/Tests.antt =====
-- Runs of the command channel at concrete inputs.
use wcn36xx.Common.{
  ℕ, take, drop, ◌+◌, ◌≡◌, ◌⊎◌, ◌↔◌, refl, true, false, Option, none, some, List, [], ◌∷◌, ◌++◌,
  length, replicate, length-replicate, sym, zeros, u32, Ret, ok, err, etime, enomem, arith,
}
use mathlib.Core.Bool.{true≢false}
use wcn36xx.Smd.Ind.{IndState, run_ind_wq}
use wcn36xx.Smd.Ind.Queue.{
  HasWork, AllIndications, Backlog, Ran, run_ind_wq-Backlog, arrivals-run_ind_wq,
}
use wcn36xx.Smd.Beacon.{
  overruns, send_beacon_msg, beacon_length, beacon_template, smd_send_beacon,
  smd_update_proberesp_tmpl,
}
use wcn36xx.Smd.Beacon.Padding.{padded, beacon_template-beacon_length}
use wcn36xx.Smd.Beacon.Framed.{BeaconOutcome, smd_send_beacon-smd_update_proberesp_tmpl}
use wcn36xx.Hal.MsgType.{
  update_probe_rsp_template_req, missed_beacon_ind, ota_tx_compl_ind, exit_bmps_rsp, update_cfg_req,
}
use wcn36xx.Hal.Layout.{header, frame, exit_bmps_body}
use wcn36xx.Smd.State.{Hal, Reply, accepted}
use wcn36xx.Smd.Receive.{is_one_of, arrivals, rsp_process, complete_with}
use wcn36xx.Smd.Send.{command, simple, rsp_status_check, then_check, send_and_wait, wait_reply}
use wcn36xx.Smd.Power.{exit_bmps_msg}
use wcn36xx.Smd.Outcome.{
  rsp_status_check-ReadsResponse, outcome, command-outcome, succeeded, simple-ok_iff,
}
use wcn36xx.Smd.Bounds.{reach, command-reach}
use wcn36xx.Smd.Wire.{Sends}
use wcn36xx.Smd.Nv.{
  bytes_left, is_last, found, NvState, smd_load_nv, load_cached, request_nv, with_nv, keep_nv,
  load_nv_loop, send_fragment, fill_fragment,
}
use wcn36xx.Smd.Nv.Sent.{SentAll}
use wcn36xx.Smd.Nv.Load.{smd_load_nv-sent}
use wcn36xx.Smd.Nv.Endless.{download_nv_ok, smd_load_nv-endless}
use wcn36xx.Smd.Config.{
  FwInfo, cfg_vals, tlv, put_cfg_list, put_cfg_tlv_u32, start_after, start_checked, start_send,
  smd_start, smd_update_cfg,
}
use wcn36xx.Smd.Config.Tlv.{read_tlvs, put_cfg_list-read_tlvs}
use wcn36xx.Smd.Config.Start.{full_start_msg, smd_start-smd_update_cfg}
use wcn36xx.Smd.Caps.{set_feat_caps, get_feat_caps, clear_feat_caps, dot11ac}
use wcn36xx.Smd.Caps.Bitmap.{get_feat_caps_lem}

-- A response without and with an error.
abbrev exit_ok : List ℕ
exit_ok = header exit_bmps_rsp 12 ++ u32 0

abbrev with_replies : List Reply → Hal
with_replies rs = record {
  buf = zeros 4096;
  rsp_len = 0;
  completed = false;
  ind_queue = [];
  ind_pending = false;
  sent = [];
  replies = rs;
  allocs = [];
}

abbrev fresh : Hal
fresh = with_replies (accepted (exit_ok ∷ []) ∷ [])

command-outcome_example :
    (command (exit_bmps_msg 0) rsp_status_check fresh).0
    ≡ outcome rsp_status_check (accepted (exit_ok ∷ []) ∷ [])
command-outcome_example =
    command-outcome (exit_bmps_msg 0) rsp_status_check fresh rsp_status_check-ReadsResponse

simple-ok_iff_example :
    ((simple (exit_bmps_msg 0) fresh).0 ≡ ok) ↔ (succeeded (accepted (exit_ok ∷ []) ∷ []) ≡ true)
simple-ok_iff_example = simple-ok_iff (exit_bmps_msg 0) fresh

-- A response of 4112 bytes.
abbrev too_long : List Reply
too_long = accepted ((exit_ok ++ zeros 4100) ∷ exit_ok ∷ []) ∷ []

command-reach_example :
    length (command (exit_bmps_msg 0) rsp_status_check (with_replies too_long)).1.buf
    ≡ reach too_long
unfolding exit_bmps_msg frame header exit_bmps_body
command-reach_example =
    command-reach (exit_bmps_msg 0) rsp_status_check (with_replies too_long) (omega arith) refl

abbrev nv_file : List ℕ
nv_file = 1 ∷ 0 ∷ 0 ∷ 0 ∷ 7 ∷ 8 ∷ []

abbrev before_load : NvState
before_load = record { nv = none; hal = with_replies (accepted (download_nv_ok ∷ []) ∷ []) }

state_of : Option (Ret × NvState) → NvState
state_of none = before_load
state_of (some (ret, s)) = s

abbrev after_load : NvState
after_load = state_of (smd_load_nv 22 (found nv_file) before_load)

loaded : smd_load_nv 22 (found nv_file) before_load ≡ some (ok, after_load)
unfolding smd_load_nv load_cached request_nv with_nv keep_nv load_nv_loop send_fragment
    fill_fragment send_and_wait wait_reply arrivals rsp_process is_one_of complete_with then_check
    rsp_status_check download_nv_ok header state_of is_last bytes_left
loaded = refl

smd_load_nv-sent_example :
    SentAll 0 (7 ∷ 8 ∷ []) [] after_load.hal.sent × (after_load.nv ≡ some nv_file)
smd_load_nv-sent_example =
    smd_load_nv-sent 22 nv_file (found nv_file) before_load after_load refl (omega arith)
      (omega arith) loaded

-- One byte more than the offsets can reach.
abbrev large_file : List ℕ
large_file = replicate 67589 0

abbrev before_large : NvState
before_large = record {
  nv = none;
  hal = with_replies (replicate 3 (accepted (download_nv_ok ∷ [])));
}

smd_load_nv-endless_example : smd_load_nv 3 (found large_file) before_large ≡ none
smd_load_nv-endless_example =
    smd_load_nv-endless 3 large_file (found large_file) before_large refl
      (omega (arith, length-replicate {A = ℕ} 67589 0))
      (omega (arith, length-replicate {A = ℕ} 67589 0)) refl

abbrev unknown : FwInfo
unknown = record {
  crm_version = zeros 65;
  wlan_version = zeros 65;
  fw_revision = 0;
  fw_version = 0;
  fw_minor = 0;
  fw_major = 0;
}

timed_out : (smd_start (with_replies []) unknown).0 ≡ err etime
unfolding smd_start start_after start_checked start_send send_and_wait wait_reply put_cfg_list
    cfg_vals put_cfg_tlv_u32
timed_out = refl

smd_start-smd_update_cfg_example :
    ((smd_start fresh unknown).1.sent ≡ full_start_msg ∷ [])
    × (((smd_start fresh unknown).0 ≡ ok) ⊎ ((smd_start fresh unknown).2 ≡ unknown))
    × ((smd_update_cfg 98 10 fresh).1.sent ≡ (header update_cfg_req 24 ++ u32 12 ++ tlv 98 10) ∷ [])
smd_start-smd_update_cfg_example = smd_start-smd_update_cfg fresh unknown 98 10

-- A table of two entries.
abbrev two_cfgs : List (ℕ × ℕ)
two_cfgs = (1, 1) ∷ (98, 10) ∷ []

-- From 4080 the second entry does not fit any more.
put_cfg_list-read_tlvs_example :
    let w = put_cfg_list two_cfgs (zeros 4096) 12 in
    (w.0 ≡ ok)
    × (w.2 ≡ 36)
    × (take 12 w.1 ≡ take 12 (zeros 4096))
    × (read_tlvs 2 (take 24 (drop 12 w.1)) ≡ some two_cfgs)
    × ((put_cfg_list two_cfgs (zeros 4096) 4080).0 ≡ err enomem)
put_cfg_list-read_tlvs_example =
    put_cfg_list-read_tlvs two_cfgs (zeros 4096) 12 two_cfgs (zeros 4096) 4080 (omega arith)
      (omega arith) (omega arith, omega arith, (omega arith, omega arith, tt)) (omega arith)

get_feat_caps_lem_example :
    (get_feat_caps (set_feat_caps (8192 ∷ 0 ∷ 0 ∷ 0 ∷ []) dot11ac) dot11ac ≡ some 1)
    × (get_feat_caps (clear_feat_caps (8192 ∷ 0 ∷ 0 ∷ 0 ∷ []) dot11ac) dot11ac ≡ some 0)
get_feat_caps_lem_example =
    get_feat_caps_lem (8192 ∷ 0 ∷ 0 ∷ 0 ∷ []) dot11ac dot11ac (omega arith) (omega arith) refl

-- Two indications before the work runs.
abbrev beacon_missed : List ℕ
beacon_missed = header missed_beacon_ind 9 ++ (1 ∷ [])

abbrev frame_acked : List ℕ
frame_acked = header ota_tx_compl_ind 12 ++ u32 1

abbrev quiet : IndState
quiet = record { hal = with_replies []; info = unknown; vifs = []; calls = [] }

both : AllIndications (beacon_missed ∷ frame_acked ∷ [])
unfolding AllIndications is_one_of header
both = (refl, refl, (refl, refl, tt))

run_ind_wq-Backlog_example :
    Backlog quiet beacon_missed
      (frame_acked ∷ [])
      (run_ind_wq (record quiet { hal = arrivals (beacon_missed ∷ frame_acked ∷ []) quiet.hal }))
run_ind_wq-Backlog_example =
    run_ind_wq-Backlog quiet beacon_missed (frame_acked ∷ []) both refl refl

no_work : HasWork quiet.hal
no_work p = absurd (true≢false (sym p))

arrivals-run_ind_wq_example :
    HasWork (arrivals (beacon_missed ∷ exit_ok ∷ []) quiet.hal) × Ran quiet (run_ind_wq quiet)
arrivals-run_ind_wq_example = arrivals-run_ind_wq (beacon_missed ∷ exit_ok ∷ []) quiet no_work

-- A TIM element of four bytes at 2, with two bytes behind it.
abbrev short_beacon : List ℕ
short_beacon = 0 ∷ 0 ∷ 5 ∷ 4 ∷ 0 ∷ 3 ∷ 0 ∷ 1 ∷ 221 ∷ 0 ∷ []

beacon_template-beacon_length_example :
    (take 15 (beacon_template false short_beacon 2)
      ≡ 0 ∷ 0 ∷ 5 ∷ 9 ∷ 0 ∷ 3 ∷ 0 ∷ 1 ∷ 0 ∷ 0 ∷ 0 ∷ 0 ∷ 0 ∷ 221 ∷ 0 ∷ [])
    × (beacon_length false short_beacon 2 + 4 ≡ 19)
unfolding padded
beacon_template-beacon_length_example =
    beacon_template-beacon_length short_beacon 2 short_beacon 2 (omega arith) (omega arith)
      (omega arith) (omega arith) (omega arith)

abbrev own_addr : List ℕ
own_addr = 2 ∷ 0 ∷ 0 ∷ 0 ∷ 0 ∷ 1 ∷ []

-- A TIM of 30 bytes: the told length is 380, and the frame of 401 bytes is copied over the end.
abbrev long_tim : List ℕ
long_tim = 0 ∷ 0 ∷ 5 ∷ 30 ∷ zeros 397

over_the_end : smd_send_beacon false own_addr long_tim 2 0 fresh ≡ none
unfolding smd_send_beacon beacon_length overruns
over_the_end = refl

smd_send_beacon-smd_update_proberesp_tmpl_example :
    BeaconOutcome
      (send_beacon_msg false own_addr short_beacon 2 0)
      fresh
      false
      false
      (smd_send_beacon false own_addr short_beacon 2 0 fresh)
    × Sends update_probe_rsp_template_req 432 1 fresh
        (smd_update_proberesp_tmpl own_addr short_beacon fresh).1
unfolding beacon_length
smd_send_beacon-smd_update_proberesp_tmpl_example =
    smd_send_beacon-smd_update_proberesp_tmpl false own_addr short_beacon 2 0 fresh
