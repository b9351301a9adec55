-- ===== src/Smd/Beacon/Framed.antt =====
-- What the template commands send.
use mathlib.Core.Path.{subst}
use wcn36xx.Smd.Send.{simple, rsp_status_check}
use wcn36xx.Smd.Effects.{command-sent}
use wcn36xx.Common.{
  Ret, err, enomem, Option, none, some, true, false, not, ◌||◌, ◌&&◌, byte_at, ◌++◌, ◌∷◌, ℕ, ◌+◌,
  ◌≡◌, refl, sym, inl, inr, Bool, Bool-cases, List, [], append-nil, length, ltb, if◌then◌else◌,
  arith,
}
use wcn36xx.Hal.MsgType.{MsgType, send_beacon_req, update_probe_rsp_template_req}
use wcn36xx.Hal.Layout.{send_beacon_body, probe_resp_body}
use wcn36xx.Smd.State.{Hal}
use wcn36xx.Smd.Wire.{Sends, sizes, one_simple}
use wcn36xx.Smd.Beacon.{
  pad, overruns, beacon_length, send_beacon_msg, smd_send_beacon, proberesp_msg,
  smd_update_proberesp_tmpl,
}

none_sent : (t : MsgType) (n : ℕ) (h : Hal) → Sends t n 0 h h
none_sent t n h = record {
  messages = [];
  appended = sym (append-nil h.sent);
  framed = tt;
  counted = refl;
}

send_beacon_size :
    (a b : ℕ) (bcn addr : List ℕ) (c d : ℕ) → 8 + length (send_beacon_body a b bcn addr c d) ≡ 408
unfolding send_beacon_body
send_beacon_size a b bcn addr c d = simp sizes

sent_framed :
    (mesh : Bool) (addr bcn : List ℕ) (tim_off p2p_off : ℕ) (h : Hal)
    → Sends send_beacon_req 408 1 h (simple (send_beacon_msg mesh addr bcn tim_off p2p_off) h).1
unfolding send_beacon_msg
sent_framed mesh addr bcn tim_off p2p_off h =
    one_simple _ _ _ h (send_beacon_size _ _ _ _ _ _) (omega arith)

short_tim :
    (mesh : Bool) (bcn : List ℕ) (tim_off : ℕ)
    → ltb 0 (pad mesh bcn tim_off) ≡ (not mesh && ltb (byte_at (tim_off + 1) bcn) 9)
unfolding pad
short_tim true bcn tim_off = refl
short_tim false bcn tim_off = ground arith

overruns_lem :
    (mesh : Bool) (bcn : List ℕ) (tim_off : ℕ)
    → overruns mesh bcn tim_off ≡ (
        ltb 380 (length bcn)
        || (not mesh
            && ltb (byte_at (tim_off + 1) bcn) 9
            && ltb (length bcn) (tim_off + 2 + byte_at (tim_off + 1) bcn)))
unfolding overruns
overruns_lem mesh bcn tim_off = rw (short_tim mesh bcn tim_off) refl

-- What comes of a beacon, by whether the told length is too big and whether the frame overruns the
-- message.
pub data BeaconOutcome (msg : List ℕ) (h : Hal) : Bool → Bool → Option (Ret × Hal) → Type 0 where
  too_big : (over : Bool) → BeaconOutcome msg h true over (some (err enomem, h))
  overrun : BeaconOutcome msg h false true none
  sent_one :
      (r : Ret × Hal)
      → Sends send_beacon_req 408 1 h r.1
      → r.1.sent ≡ h.sent ++ (msg ∷ [])
      → BeaconOutcome msg h false false (some r)

smd_send_beacon-BeaconOutcome :
    (mesh : Bool) (addr bcn : List ℕ) (tim_off p2p_off : ℕ) (h : Hal)
    → BeaconOutcome
        (send_beacon_msg mesh addr bcn tim_off p2p_off)
        h
        (ltb 380 (beacon_length mesh bcn tim_off))
        (overruns mesh bcn tim_off)
        (smd_send_beacon mesh addr bcn tim_off p2p_off h)
unfolding smd_send_beacon simple
smd_send_beacon-BeaconOutcome mesh addr bcn tim_off p2p_off h =
    let msg = send_beacon_msg mesh addr bcn tim_off p2p_off in
    elim (Bool-cases (ltb 380 (beacon_length mesh bcn tim_off))) [
      | inl e ↦ rw e (too_big (overruns mesh bcn tim_off))
      | inr e ↦ elim (Bool-cases (overruns mesh bcn tim_off)) [
        | inl o ↦ rw (e, o) overrun
        | inr o ↦
            rw (e, o)
              (sent_one (simple msg h) (sent_framed mesh addr bcn tim_off p2p_off h)
                (command-sent msg rsp_status_check h))
      ]
    ]

-- A probe response above 380 bytes is not sent; any other is sent in one message of the struct's 432
-- bytes.
smd_update_proberesp_tmpl-Sends :
    (addr bcn : List ℕ) (h : Hal)
    → Sends update_probe_rsp_template_req 432
        (if ltb 380 (length bcn) then 0 else 1)
        h
        (smd_update_proberesp_tmpl addr bcn h).1
unfolding smd_update_proberesp_tmpl proberesp_msg probe_resp_body
smd_update_proberesp_tmpl-Sends addr bcn h = elim (Bool-cases (ltb 380 (length bcn))) [
  | inl e ↦ rw e (none_sent update_probe_rsp_template_req 432 h)
  | inr e ↦ rw e (one_simple _ _ _ h (simp sizes) (omega arith))
]

-- The driver refuses a beacon with -ENOMEM exactly when the told length is above 380, and sends nothing
-- then. Any other beacon of more than 380 bytes is written outside the message; so is one, not of a
-- mesh, whose TIM element is padded and does not end inside it. The others are sent in one framed
-- message of 408 bytes. A probe response above 380 bytes is not sent; any other is sent in one framed
-- message of 432 bytes.
pub smd_send_beacon-smd_update_proberesp_tmpl :
    (mesh : Bool) (addr bcn : List ℕ) (tim_off p2p_off : ℕ) (h : Hal)
    → BeaconOutcome
        (send_beacon_msg mesh addr bcn tim_off p2p_off)
        h
        (ltb 380 (beacon_length mesh bcn tim_off))
        (ltb 380 (length bcn)
          || (not mesh
              && ltb (byte_at (tim_off + 1) bcn) 9
              && ltb (length bcn) (tim_off + 2 + byte_at (tim_off + 1) bcn)))
        (smd_send_beacon mesh addr bcn tim_off p2p_off h)
      × Sends update_probe_rsp_template_req 432
          (if ltb 380 (length bcn) then 0 else 1)
          h
          (smd_update_proberesp_tmpl addr bcn h).1
smd_send_beacon-smd_update_proberesp_tmpl mesh addr bcn tim_off p2p_off h = (
  subst
      (λ over.
        BeaconOutcome (send_beacon_msg mesh addr bcn tim_off p2p_off) h
          (ltb 380 (beacon_length mesh bcn tim_off)) over
          (smd_send_beacon mesh addr bcn tim_off p2p_off h))
      (overruns_lem mesh bcn tim_off)
      (smd_send_beacon-BeaconOutcome mesh addr bcn tim_off p2p_off h),
  smd_update_proberesp_tmpl-Sends addr bcn h,
)
