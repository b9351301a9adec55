-- ===== src/Pmc/State.antt =====
-- The power state of an interface, as pmc.c keeps it beside the firmware's.
use wcn36xx.Common.{
  ℕ, ◌≡◌, ◌↔◌, refl, sym, ◌∙◌, inl, inr, Bool, true, false, Bool-cases, failed, if◌then◌else◌, [],
  ◌∷◌, ◌++◌, Ret, ok, err, code, einval,
}
use mathlib.Core.Bool.{true≢false}
use wcn36xx.Hal.Enums.{keep_alive_null_pkt}
use wcn36xx.Smd.State.{Hal}
use wcn36xx.Smd.Power.{
  enter_bmps_msg, exit_bmps_msg, smd_enter_bmps, smd_exit_bmps, smd_keep_alive_req,
}
use wcn36xx.Smd.Send.{simple, rsp_status_check}
use wcn36xx.Smd.Effects.{command-sent}
use wcn36xx.Smd.Outcome.{succeeded, simple-ok_iff}

-- `enum wcn36xx_power_state`
pub data PowerState : Type 0 where
  full_power bmps : PowerState

-- The interface: its index in the firmware, what `sync_tsf` and `dtim_period` of mac80211 are, and
-- its power state.
pub record Vif : Type 0 where
  pub bss_index : ℕ
  pub sync_tsf : ℕ
  pub dtim_period : ℕ
  pub pw_state : PowerState

unfoldable pub enter_bmps_state : Vif → Hal → Ret × Vif × Hal
unfolding smd_enter_bmps
enter_bmps_state v h =
    let (ret, h') = smd_enter_bmps v.bss_index v.sync_tsf v.dtim_period h in
    (ret, if failed ret then v else record v { pw_state = bmps }, h')

unfoldable pub leave : PowerState → Vif → Hal → Ret × Vif × Hal
unfolding smd_exit_bmps
leave full_power v h = (err einval, v, h)
leave bmps v h = (ok, record v { pw_state = full_power }, (smd_exit_bmps v.bss_index h).1)

-- The result of the command is dropped.
unfoldable pub exit_bmps_state : Vif → Hal → Ret × Vif × Hal
unfolding leave
exit_bmps_state v h = leave v.pw_state v h

unfoldable pub enable_keep_alive_null_packet : Vif → Hal → Ret × Hal
unfolding smd_keep_alive_req
enable_keep_alive_null_packet v h = smd_keep_alive_req v.bss_index keep_alive_null_pkt h

failed-ok : (r : Ret) → failed r ≡ false → r ≡ ok
failed-ok ok e = refl
failed-ok (err x) e = absurd (true≢false e)
failed-ok (code n) e = absurd (true≢false e)

-- The state after a command that returned 0 exactly when `b`.
entered :
    (r : Ret) (b : Bool) (v : Vif)
    → (r ≡ ok) ↔ (b ≡ true)
    → (if failed r then v else record v { pw_state = bmps }).pw_state
      ≡ (if b then bmps else v.pw_state)
entered r b v (to, back) = elim (Bool-cases b) [
  | inl e ↦ rw (e, back e) refl
  | inr e ↦ elim (Bool-cases (failed r)) [
    | inl f ↦ rw (e, f) refl
    | inr f ↦ absurd (true≢false (sym (to (failed-ok r f)) ∙ e))
  ]
]

-- Entering returns 0 exactly when the transport takes the command and the last response in time is a
-- success; then the interface is in power save, and otherwise its state is what it was.
enter_bmps_state_lem :
    (v : Vif) (h : Hal)
    → (((enter_bmps_state v h).0 ≡ ok) ↔ (succeeded h.replies ≡ true))
      × ((enter_bmps_state v h).1.pw_state ≡ (if succeeded h.replies then bmps else v.pw_state))
unfolding enter_bmps_state smd_enter_bmps
enter_bmps_state_lem v h =
    let msg = enter_bmps_msg v.bss_index v.sync_tsf v.dtim_period in
    let iff = simple-ok_iff msg h in (iff, entered (simple msg h).0 (succeeded h.replies) v iff)

-- What leaving does in each state.
abbrev pub LeftFrom : PowerState → Ret × Vif × Hal → Vif → Hal → Type 0
LeftFrom full_power r v h = r ≡ (err einval, v, h)
LeftFrom bmps r v h =
    (r.0 ≡ ok)
    × (r.1 ≡ record v { pw_state = full_power })
    × (r.2.sent ≡ h.sent ++ (exit_bmps_msg v.bss_index ∷ []))

leave-LeftFrom : (p : PowerState) (v : Vif) (h : Hal) → LeftFrom p (leave p v h) v h
unfolding leave smd_exit_bmps simple
leave-LeftFrom full_power v h = refl
leave-LeftFrom bmps v h = (refl, refl, command-sent (exit_bmps_msg v.bss_index) rsp_status_check h)

-- Leaving outside power save changes nothing, sends nothing and returns -EINVAL. In power save it
-- sends the command, and whatever the transport and the firmware do with it, the interface counts as
-- awake and the result is 0.
exit_bmps_state-LeftFrom : (v : Vif) (h : Hal) → LeftFrom v.pw_state (exit_bmps_state v h) v h
unfolding exit_bmps_state
exit_bmps_state-LeftFrom v h = leave-LeftFrom v.pw_state v h

-- Entering power save returns 0 exactly when the transport takes the command and the last response in
-- time is a success; then the interface is in power save, and otherwise its state is what it was.
-- Leaving outside power save changes nothing, sends nothing and returns -EINVAL; in power save it
-- sends the command, and whatever becomes of it the interface counts as awake and the result is 0.
pub enter_bmps_state-exit_bmps_state :
    (v : Vif) (h : Hal)
    → (((enter_bmps_state v h).0 ≡ ok) ↔ (succeeded h.replies ≡ true))
      × ((enter_bmps_state v h).1.pw_state ≡ (if succeeded h.replies then bmps else v.pw_state))
      × LeftFrom v.pw_state (exit_bmps_state v h) v h
enter_bmps_state-exit_bmps_state v h =
    let e = enter_bmps_state_lem v h in (e.0, e.1, exit_bmps_state-LeftFrom v h)
