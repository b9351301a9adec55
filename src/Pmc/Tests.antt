-- ===== src/Pmc/Tests.antt =====
-- Power save at concrete inputs.
use wcn36xx.Common.{◌≡◌, ◌↔◌, true, false, [], ◌∷◌, ◌++◌, zeros, u32, if◌then◌else◌, ok}
use wcn36xx.Hal.MsgType.{enter_bmps_rsp}
use wcn36xx.Hal.Layout.{header}
use wcn36xx.Smd.State.{Hal, accepted, refused}
use wcn36xx.Smd.Power.{exit_bmps_msg}
use wcn36xx.Smd.Outcome.{succeeded}
use wcn36xx.Pmc.State.{
  Vif, full_power, bmps, enter_bmps_state, exit_bmps_state, enter_bmps_state-exit_bmps_state,
}

abbrev awake : Vif
awake = record { bss_index = 1; sync_tsf = 1000; dtim_period = 2; pw_state = full_power }

abbrev asleep : Vif
asleep = record awake { pw_state = bmps }

-- The firmware lets the interface sleep, and then the transport refuses the command that wakes it.
abbrev firmware : Hal
firmware = record {
  buf = zeros 4096;
  rsp_len = 0;
  completed = false;
  ind_queue = [];
  ind_pending = false;
  sent = [];
  replies = accepted ((header enter_bmps_rsp 12 ++ u32 0) ∷ []) ∷ [];
  allocs = [];
}

abbrev unwilling : Hal
unwilling = record firmware { replies = refused 4 ∷ [] }

enter_bmps_state-exit_bmps_state_example :
    (((enter_bmps_state asleep unwilling).0 ≡ ok) ↔ (succeeded unwilling.replies ≡ true))
    × ((enter_bmps_state asleep unwilling).1.pw_state
        ≡ (if succeeded unwilling.replies then bmps else bmps))
    × (((exit_bmps_state asleep unwilling).0 ≡ ok)
        × ((exit_bmps_state asleep unwilling).1 ≡ awake)
        × ((exit_bmps_state asleep unwilling).2.sent ≡ exit_bmps_msg 1 ∷ []))
enter_bmps_state-exit_bmps_state_example = enter_bmps_state-exit_bmps_state asleep unwilling
