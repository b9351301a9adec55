-- ===== src/Debug/Bmps.antt =====
-- The file `bmps_switcher`: `read_file_bool_bmps` and `write_file_bool_bmps`.
use wcn36xx.Common.{
  ℕ, suc, ◌≡◌, refl, sym, ap, ◌∙◌, Bool, true, false, ◌==◌, ◌||◌, if◌then◌else◌, List, [], ◌∷◌,
  take, drop, min, length, arith,
}
use wcn36xx.Smd.State.{Hal}
use wcn36xx.Pmc.State.{
  Vif, PowerState, full_power, bmps, enter_bmps_state, exit_bmps_state, leave,
  enable_keep_alive_null_packet,
}

-- An interface of `vif_list`, with whether its type is NL80211_IFTYPE_STATION.
pub record Listed : Type 0 where
  pub is_station : Bool
  pub vif : Vif

-- What a call on a file gives: the number of bytes, or -EFAULT.
pub data Io : Type 0 where
  bytes : ℕ → Io
  efault : Io

abbrev pub power_digit : PowerState → ℕ
power_digit bmps = b'1'
power_digit full_power = b'0'

-- `buf[0]`, which is not initialised: `garbage` is what it holds.
unfoldable pub power_byte : ℕ → List Listed → ℕ
power_byte garbage [] = garbage
power_byte garbage (l ∷ ls) =
    if l.is_station then power_digit l.vif.pw_state else power_byte garbage ls

-- The bytes that a read of `count` bytes at `pos` gives.
unfoldable pub read_file_bool_bmps : ℕ → List Listed → ℕ → ℕ → List ℕ
unfolding power_byte
read_file_bool_bmps garbage ls count pos =
    take count (drop pos (power_byte garbage ls ∷ b'\n' ∷ []))

-- One interface; the results of the commands are dropped.
unfoldable pub enter_one : Listed → Hal → Listed × Hal
enter_one l h =
    let alive = (enable_keep_alive_null_packet l.vif h).1 in
    let (r, v, h') = enter_bmps_state l.vif alive in
    if l.is_station then (record l { vif = v }, h') else (l, h)

unfoldable pub exit_one : Listed → Hal → Listed × Hal
exit_one l h =
    let (r, v, h') = exit_bmps_state l.vif h in
    if l.is_station then (record l { vif = v }, h') else (l, h)

unfoldable pub each_listed : (Listed → Hal → Listed × Hal) → List Listed → Hal → List Listed × Hal
each_listed f [] h = ([], h)
each_listed f (l ∷ ls) h =
    let (l', h') = f l h in let (ls', h'') = each_listed f ls h' in (l' ∷ ls', h'')

unfoldable pub switch_bmps : ℕ → List Listed → Hal → List Listed × Hal
unfolding each_listed enter_one exit_one
switch_bmps c ls h =
    if c == b'y' || c == b'Y' || c == b'1'
    then each_listed enter_one ls h
    else if c == b'n' || c == b'N' || c == b'0'
    then each_listed exit_one ls h
    else (ls, h)

-- `buf[0]` again, which an empty write leaves uninitialised.
abbrev pub first_byte : ℕ → List ℕ → ℕ
first_byte garbage [] = garbage
first_byte garbage (c ∷ cs) = c

-- `copied` is whether `copy_from_user` succeeds.
unfoldable pub write_file_bool_bmps : ℕ → Bool → List ℕ → List Listed → Hal → Io × List Listed × Hal
unfolding switch_bmps
write_file_bool_bmps garbage copied user ls h =
    let c = first_byte garbage (take (min (length user) 31) user) in
    let (ls', h') = switch_bmps c ls h in
    if copied then (bytes (length user), ls', h') else (efault, ls, h)

abbrev pub any_station : List Listed → Bool
any_station [] = false
any_station (l ∷ ls) = l.is_station || any_station ls

left_awake :
    (p : PowerState) (v : Vif) (h : Hal) → p ≡ v.pw_state → (leave p v h).1.pw_state ≡ full_power
unfolding leave
left_awake full_power v h e = sym e
left_awake bmps v h e = refl

exit_awake : (v : Vif) (h : Hal) → (exit_bmps_state v h).1.pw_state ≡ full_power
unfolding exit_bmps_state
exit_awake v h = left_awake v.pw_state v h refl

exit_byte :
    (b : Bool) (garbage : ℕ) (v : Vif) (ls : List Listed) (h : Hal)
    → ((k : Hal)
        → power_byte garbage (each_listed exit_one ls k).0
          ≡ (if any_station ls then b'0' else garbage))
    → power_byte garbage (each_listed exit_one (record { is_station = b; vif = v } ∷ ls) h).0
      ≡ (if b || any_station ls then b'0' else garbage)
unfolding power_byte each_listed exit_one
exit_byte true garbage v ls h ih = ap power_digit (exit_awake v h)
exit_byte false garbage v ls h ih = ih h

exit_all_byte :
    (garbage : ℕ) (ls : List Listed) (h : Hal)
    → power_byte garbage (each_listed exit_one ls h).0 ≡ (if any_station ls then b'0' else garbage)
unfolding power_byte each_listed
exit_all_byte garbage [] h = refl
exit_all_byte garbage (l ∷ ls) h =
    exit_byte l.is_station garbage l.vif ls h (λ k. exit_all_byte garbage ls k)

abbrev pub is_off : ℕ → Bool
is_off c = c == b'n' || c == b'N' || c == b'0'

switch_off :
    (c : ℕ) (ls : List Listed) (h : Hal)
    → is_off c ≡ true
    → switch_bmps c ls h ≡ each_listed exit_one ls h
unfolding switch_bmps
switch_off c ls h off =
    let not_on : (c == b'y' || c == b'Y' || c == b'1') ≡ false = ground arith in
    rw (not_on, off) refl

first_of_user :
    (garbage c : ℕ) (cs : List ℕ)
    → first_byte garbage (take (min (length (c ∷ cs)) 31) (c ∷ cs)) ≡ c
first_of_user garbage c cs =
    let some_left : min (suc (length cs)) 31 ≡ suc (min (length cs) 30) = omega arith in
    rw some_left refl

-- After a write that starts with one of the letters n, N and 0, and that could be copied, all of its
-- bytes count as written, and a read of the file gives the digit 0 and a newline whatever the
-- transport and the firmware did, if there is a station interface; without one the digit is a byte of
-- the stack that was never written.
pub write_file_bool_bmps-read_file_bool_bmps :
    (garbage other c : ℕ) (cs : List ℕ) (ls : List Listed) (h : Hal)
    → is_off c ≡ true
    → let w = write_file_bool_bmps garbage true (c ∷ cs) ls h in
      (w.0 ≡ bytes (length (c ∷ cs)))
      × (read_file_bool_bmps other w.1 2 0 ≡ (if any_station ls then b'0' else other) ∷ b'\n' ∷ [])
unfolding write_file_bool_bmps read_file_bool_bmps
write_file_bool_bmps-read_file_bool_bmps garbage other c cs ls h off = (
  refl,
  ap (λ (x : ℕ). x ∷ b'\n' ∷ [])
      (ap (λ (k : ℕ). power_byte other (switch_bmps k ls h).0) (first_of_user garbage c cs)
        ∙ ap (λ (x : List Listed × Hal). power_byte other x.0) (switch_off c ls h off)
        ∙ exit_all_byte other ls h),
)
