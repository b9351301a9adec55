-- ===== src/Txrx/Sessions.antt =====
-- txrx.c: how often, and with which frame, a block-ack session is asked for.
use wcn36xx.Common.{
  ℕ, zero, suc, ◌+◌, ◌%◌, ◌≤◌, ◌<◌, ◌≡◌, ◌≢◌, refl, sym, ap, ◌∙◌, inl, inr, Bool, true, false, not,
  ◌||◌, Bool-cases, leb, ◌==◌, ==_iff, if◌then◌else◌, List, [], ◌∷◌, length, set, get_or, replicate,
  length-set, get_or-set_self, get_or-set_ne, arith,
}
use mathlib.Core.Bool.{true≢false}
use wcn36xx.Txrx.Ampdu.{
  AmpduState, ampdu_none, ampdu_init, ampdu_start, ampdu_operational, StaTx, QosFrame, start_thresh,
  frame_tid, state_of, start_session, one_more, count_frame, tx_start_ampdu, send_frames,
}

-- How often an identifier is in a list of sessions, and whether one may still be asked for it.
unfoldable pub starts : ℕ → List ℕ → ℕ
starts t [] = 0
starts t (x ∷ xs) = (if x == t then 1 else 0) + starts t xs

unfoldable pub idle : AmpduState → ℕ
idle ampdu_none = 1
idle ampdu_init = 0
idle ampdu_start = 0
idle ampdu_operational = 0

unfoldable pub budget : ℕ → StaTx → ℕ
unfolding starts idle state_of
budget t s = starts t s.sessions + idle (state_of t s)

-- One frame keeps the budget of every identifier.
start_session-budget :
    (t tid : ℕ) (s : StaTx)
    → tid < length s.ampdu_state
    → state_of tid s ≡ ampdu_none
    → budget t (start_session tid s) ≡ budget t s
unfolding budget start_session starts idle state_of
start_session-budget t tid s h e = elim (Bool-cases (tid == t)) [
  | inl q ↦
      let same : tid ≡ t = (==_iff tid t).0 q in
      let after : get_or (set s.ampdu_state tid ampdu_start) t ampdu_none ≡ ampdu_start =
        rw (sym same) (get_or-set_self s.ampdu_state tid ampdu_start ampdu_none h) in
      let before : get_or s.ampdu_state t ampdu_none ≡ ampdu_none = rw (sym same) e in
      rw (q, after, before) (omega arith)
  | inr q ↦
      let other : tid ≢ t = λ same. true≢false (sym ((==_iff tid t).1 same) ∙ q) in
      rw (q, get_or-set_ne s.ampdu_state tid t ampdu_start ampdu_none other) (omega arith)
]

count_frame-budget :
    (t tid : ℕ) (a : AmpduState) (s : StaTx)
    → tid < length s.ampdu_state
    → state_of tid s ≡ a
    → budget t (count_frame tid a s) ≡ budget t s
unfolding count_frame budget one_more state_of
count_frame-budget t tid ampdu_none s h e =
    elim (Bool-cases (leb start_thresh s.non_agg_frame_ct)) [
      | inl q ↦ rw (q) (start_session-budget t tid s h e)
      | inr q ↦ rw (q) refl
    ]
count_frame-budget t tid ampdu_init s h e = refl
count_frame-budget t tid ampdu_start s h e = refl
count_frame-budget t tid ampdu_operational s h e = refl

length-count_frame :
    (tid : ℕ) (a : AmpduState) (s : StaTx)
    → length (count_frame tid a s).ampdu_state ≡ length s.ampdu_state
unfolding count_frame one_more start_session
length-count_frame tid ampdu_none s = elim (Bool-cases (leb start_thresh s.non_agg_frame_ct)) [
  | inl q ↦ rw (q) (length-set s.ampdu_state tid ampdu_start)
  | inr q ↦ rw (q) refl
]
length-count_frame tid ampdu_init s = refl
length-count_frame tid ampdu_start s = refl
length-count_frame tid ampdu_operational s = refl

one_frame :
    (b : Bool) (t : ℕ) (f : QosFrame) (s : StaTx)
    → length s.ampdu_state ≡ 16
    → let s' = if b then s else count_frame (frame_tid f) (state_of (frame_tid f) s) s in
      (length s'.ampdu_state ≡ 16) × (budget t s' ≡ budget t s)
unfolding frame_tid
one_frame true t f s h = (h, refl)
one_frame false t f s h = (
  length-count_frame (f.qc % 16) (state_of (f.qc % 16) s) s ∙ h,
  count_frame-budget t (f.qc % 16) (state_of (f.qc % 16) s) s (omega arith) refl,
)

-- Whatever frames are sent to a station with its 16 traffic identifiers: for every identifier, the
-- sessions asked for and one more while the identifier is idle stay the same in number, so that a
-- session is asked for only once, and only when the identifier was idle before.
send_frames-budget :
    (ht : Bool) (fs : List QosFrame) (s : StaTx) (t : ℕ)
    → length s.ampdu_state ≡ 16
    → budget t (send_frames ht fs s) ≡ budget t s
unfolding send_frames tx_start_ampdu
send_frames-budget ht [] s t h = refl
send_frames-budget ht (f ∷ fs) s t h =
    let (h', e) = one_frame (not ht || not f.data_qos || f.voice) t f s h in
    send_frames-budget ht fs (tx_start_ampdu ht f s) t h' ∙ e

-- A QoS frame that is not for voice, with its control byte.
abbrev pub plain_frame : ℕ → QosFrame
plain_frame q = record { data_qos = true; voice = false; qc = q }

one_counted :
    (q : ℕ) (s : StaTx)
    → state_of (q % 16) s ≡ ampdu_none
    → tx_start_ampdu true (plain_frame q) s
      ≡ (if leb start_thresh s.non_agg_frame_ct then start_session (q % 16) s else one_more s)
unfolding tx_start_ampdu frame_tid count_frame
one_counted q s e = rw (e) refl

below_thresh :
    (q : ℕ) (s : StaTx)
    → state_of (q % 16) s ≡ ampdu_none
    → s.non_agg_frame_ct < start_thresh
    → tx_start_ampdu true (plain_frame q) s ≡ one_more s
below_thresh q s e h =
    let low : leb start_thresh s.non_agg_frame_ct ≡ false = ground arith in
    rw (one_counted q s e, low) refl

before_start :
    (m q : ℕ) (s : StaTx)
    → state_of (q % 16) s ≡ ampdu_none
    → m + s.non_agg_frame_ct ≤ start_thresh
    → (send_frames true (replicate m (plain_frame q)) s).sessions ≡ s.sessions
unfolding send_frames one_more state_of
before_start zero q s e h = refl
before_start (suc m) q s e h =
    ap (λ s'. (send_frames true (replicate m (plain_frame q)) s').sessions)
      (below_thresh q s e (omega arith))
    ∙ before_start m q (one_more s) e (omega arith)

at_start :
    (n q : ℕ) (s : StaTx)
    → state_of (q % 16) s ≡ ampdu_none
    → n + s.non_agg_frame_ct ≡ start_thresh
    → send_frames true (replicate (suc n) (plain_frame q)) s ≡ start_session (q % 16) s
unfolding send_frames one_more state_of start_session
at_start zero q s e h =
    let full : leb start_thresh s.non_agg_frame_ct ≡ true = ground arith in
    rw (one_counted q s e, full) refl
at_start (suc n) q s e h =
    ap (send_frames true (replicate (suc n) (plain_frame q))) (below_thresh q s e (omega arith))
    ∙ at_start n q (one_more s) e (omega arith)

-- On an HT channel, with the identifier idle and the count n short of the threshold 20: n plain
-- frames for the identifier, or fewer, ask for no session; one frame after the n asks for one, marks
-- the identifier as started and resets the count.
send_frames-start_session :
    (n q : ℕ) (s : StaTx)
    → state_of (q % 16) s ≡ ampdu_none
    → n + s.non_agg_frame_ct ≡ start_thresh
    → ((m : ℕ) → m ≤ n → (send_frames true (replicate m (plain_frame q)) s).sessions ≡ s.sessions)
      × (send_frames true (replicate (suc n) (plain_frame q)) s ≡ start_session (q % 16) s)
send_frames-start_session n q s e h =
    ((λ m l. before_start m q s e (omega arith)), at_start n q s e h)

-- Whatever frames are sent to a station with its 16 traffic identifiers: for every identifier, the
-- sessions asked for and one more while the identifier is idle stay the same in number, so that a
-- session is asked for only once, and only when the identifier was idle before. On an HT channel,
-- with the identifier idle and the count n short of the threshold 20: n plain frames for it, or
-- fewer, ask for no session; one frame after the n asks for one, marks the identifier as started and
-- resets the count.
pub send_frames-sessions :
    (ht : Bool) (fs : List QosFrame) (s : StaTx) (t n q : ℕ) (r : StaTx)
    → length s.ampdu_state ≡ 16
    → state_of (q % 16) r ≡ ampdu_none
    → n + r.non_agg_frame_ct ≡ start_thresh
    → (budget t (send_frames ht fs s) ≡ budget t s)
      × ((m : ℕ) → m ≤ n → (send_frames true (replicate m (plain_frame q)) r).sessions ≡ r.sessions)
      × (send_frames true (replicate (suc n) (plain_frame q)) r ≡ start_session (q % 16) r)
send_frames-sessions ht fs s t n q r full idle short =
    let later = send_frames-start_session n q r idle short in
    (send_frames-budget ht fs s t full, later.0, later.1)
