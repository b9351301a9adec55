-- ===== src/Smd/Ind.antt =====
-- The indications of smd.c: the work that takes them from the queue, and their handlers.
pub mod Queue
use wcn36xx.Common.{
  ℕ, ◌+◌, ◌*◌, Bool, true, false, Option, none, some, List, [], ◌∷◌, ◌++◌, length, take, drop,
  byte_at, le16_at, le32_at, ◌==◌, if◌then◌else◌, Ret, ok, err, eio, enoent,
}
use wcn36xx.Hal.MsgType.{msg_code, ota_tx_compl_ind, missed_beacon_ind, delete_sta_context_ind}
use wcn36xx.Smd.State.{Hal}
use wcn36xx.Smd.Config.{FwInfo, slice, is_fw_version}

-- What the handlers read of a `struct wcn36xx_vif`, and the addresses for which
-- `ieee80211_find_sta` finds a station on it.
pub record Vif : Type 0 where
  pub bss_index : ℕ
  pub stations : List (List ℕ)

-- The calls that leave the handlers: `wcn36xx_dxe_tx_ack_ind`, `ieee80211_connection_loss` on an
-- interface, `ieee80211_report_low_ack` on a station.
pub data IndCall : Type 0 where
  tx_ack : ℕ → IndCall
  connection_loss : Vif → IndCall
  low_ack : List ℕ → IndCall

unfoldable pub tx_compl_ind : List ℕ → Ret × List IndCall
tx_compl_ind m = if length m == 12 then (ok, tx_ack (le32_at 8 m) ∷ []) else (err eio, [])

unfoldable pub all_lost : List Vif → List IndCall
all_lost [] = []
all_lost (v ∷ vs) = connection_loss v ∷ all_lost vs

unfoldable pub lose_bss : ℕ → List Vif → Ret × List IndCall
lose_bss bss_index [] = (err enoent, [])
lose_bss bss_index (v ∷ vs) =
    let rest = lose_bss bss_index vs in
    if v.bss_index == bss_index then (ok, connection_loss v ∷ []) else rest

-- The firmware of the version 1.2.2.24 has no index in this message.
unfoldable pub smd_missed_beacon_ind : FwInfo → List Vif → List ℕ → Ret × List IndCall
unfolding is_fw_version all_lost lose_bss
smd_missed_beacon_ind info vifs m =
    if is_fw_version info 1 2 2 24
    then (ok, all_lost vifs)
    else if length m == 9
    then lose_bss (byte_at 8 m) vifs
    else (err eio, [])

same_bytes : List ℕ → List ℕ → Bool
same_bytes [] [] = true
same_bytes [] (y ∷ ys) = false
same_bytes (x ∷ xs) [] = false
same_bytes (x ∷ xs) (y ∷ ys) = if x == y then same_bytes xs ys else false

unfoldable pub find_sta : List (List ℕ) → List ℕ → Bool
unfolding same_bytes
find_sta [] addr = false
find_sta (s ∷ ss) addr = let rest = find_sta ss addr in if same_bytes s addr then true else rest

unfoldable pub report_sta : List ℕ → List Vif → Ret × List IndCall
unfolding find_sta
report_sta addr [] = (err enoent, [])
report_sta addr (v ∷ vs) =
    let rest = report_sta addr vs in
    if find_sta v.stations addr then (ok, low_ack addr ∷ []) else rest

-- `addr2` stands at 18.
unfoldable pub smd_delete_sta_context_ind : List Vif → List ℕ → Ret × List IndCall
unfolding report_sta
smd_delete_sta_context_ind vifs m =
    if length m == 26 then report_sta (slice 18 6 m) vifs else (err eio, [])

-- The state that the work sees, with the calls made so far, oldest first.
pub record IndState : Type 0 where
  pub hal : Hal
  pub info : FwInfo
  pub vifs : List Vif
  pub calls : List IndCall

-- The `switch` of the work. The handlers' results are dropped.
unfoldable pub dispatch_ind : FwInfo → List Vif → List ℕ → List IndCall
unfolding msg_code tx_compl_ind smd_missed_beacon_ind smd_delete_sta_context_ind
dispatch_ind info vifs m =
    let t = le16_at 0 m in
    if t == msg_code ota_tx_compl_ind
    then (tx_compl_ind m).1
    else if t == msg_code missed_beacon_ind
    then (smd_missed_beacon_ind info vifs m).1
    else if t == msg_code delete_sta_context_ind
    then (smd_delete_sta_context_ind vifs m).1
    else []

-- One run of the work takes one message. `none` is `list_first_entry` on an empty list.
unfoldable pub take_ind : List (List ℕ) → IndState → Option IndState
unfolding dispatch_ind
take_ind [] s = none
take_ind (m ∷ ms) s = some (record s {
  hal = record s.hal { ind_queue = ms };
  calls = s.calls ++ dispatch_ind s.info s.vifs m;
})

unfoldable pub ind_smd_work : IndState → Option IndState
unfolding take_ind
ind_smd_work s = take_ind s.hal.ind_queue s

-- The workqueue runs a queued work once, and takes it off its queue before.
unfoldable pub run_ind_wq : IndState → Option IndState
unfolding ind_smd_work
run_ind_wq s =
    let started = record s { hal = record s.hal { ind_pending = false } } in
    if s.hal.ind_pending then ind_smd_work started else some s
