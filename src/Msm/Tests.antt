-- ===== src/Msm/Tests.antt =====
-- The platform module at concrete inputs.
use wcn36xx.Common.{
  pos, negsuc, ◌≡◌, refl, true, false, none, some, [], ◌∷◌, ◌++◌, zeros, u32, ok, err, eagain,
  arith,
}
use mathlib.Core.List.{map}
use wcn36xx.Hal.MsgType.{exit_bmps_rsp}
use wcn36xx.Hal.Layout.{header}
use wcn36xx.Smd.State.{Hal}
use wcn36xx.Smd.Receive.{arrivals}
use wcn36xx.Msm.Channel.{smd_send_and_wait}
use wcn36xx.Msm.Work.{Round, whole, no_memory, smd_work, smd_work-arrivals}
use wcn36xx.Msm.Open.{Link, Attempt, OpenOutcome, smd_open, smd_open_lem}
use wcn36xx.Msm.Device.{get_hw_mac}

abbrev answer : Hal
answer = record {
  buf = zeros 16;
  rsp_len = 0;
  completed = false;
  ind_queue = [];
  ind_pending = false;
  sent = [];
  replies = [];
  allocs = [];
}

-- A packet for which there is no memory.
abbrev without_memory : Round
without_memory = record {
  packet_size = pos 3;
  read_avail = pos 3;
  memory = false;
  read = pos 0;
  msg = [];
}

smd_work-arrivals_example :
    let p = header exit_bmps_rsp 12 ++ u32 0 in
    let first = smd_work (map whole (p ∷ []) ++ without_memory ∷ []) answer in
    (first ≡ (arrivals (p ∷ []) answer, []))
    × (smd_work (map whole ((1 ∷ 2 ∷ 3 ∷ []) ∷ [])) first.0
        ≡ (arrivals ((p ∷ []) ++ (1 ∷ 2 ∷ 3 ∷ []) ∷ []) answer, []))
unfolding header
smd_work-arrivals_example =
    smd_work-arrivals ((header exit_bmps_rsp 12 ++ u32 0) ∷ []) ((1 ∷ 2 ∷ 3 ∷ []) ∷ [])
      without_memory [] answer [] (omega arith, tt) (omega arith, tt) (no_memory refl)

abbrev closed : Link
closed = record { wq = 0; hal_ind_wq = 0; channel_open = false; read_intr = true }

-- The waiting times out.
abbrev late : Attempt
late = record { ind_queue_memory = true; queue_memory = true; named_result = 0; left = pos 0 }

smd_open_lem_example : OpenOutcome late closed (smd_open late closed answer)
smd_open_lem_example = smd_open_lem late closed answer refl refl

late_succeeds : (smd_open late closed answer).0 ≡ ok
unfolding smd_open
late_succeeds = refl

-- A channel that gives an error for its room is written to.
error_is_room : smd_send_and_wait (negsuc 18) (negsuc 18) (1 ∷ []) 1 ≡ (err eagain, (1 ∷ []) ∷ [])
unfolding smd_send_and_wait
error_is_room = refl

short_file : get_hw_mac (λ tmp. []) (some (1 ∷ 2 ∷ [])) [] (zeros 6) ≡ none
unfolding get_hw_mac
short_file = refl
