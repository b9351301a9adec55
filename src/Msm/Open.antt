-- ===== src/Msm/Open.antt =====
-- Opening and closing the control channel: `wcn36xx_msm_smd_open`, `wcn36xx_msm_smd_close`, and
-- `wcn36xx_smd_open`, `wcn36xx_smd_close` of smd.c around them.
use wcn36xx.Common.{
  ◌==◌, ℤ, pos, negsuc, ℕ, zero, suc, ◌+◌, ◌-◌, ◌≡◌, ◌↔◌, refl, Bool, true, false, not, Option,
  none, some, failed, if◌then◌else◌, [], Ret, ok, err, code, enomem, ret_of, arith,
}
use wcn36xx.Smd.State.{Hal}
use wcn36xx.Smd.Ind.{IndState, run_ind_wq}

-- `wq` of the platform module and `hal_ind_wq` of the driver, whether the channel is open, and
-- whether its read interrupt is on. The counts are of queues that exist.
pub record Link : Type 0 where
  pub wq : ℕ
  pub hal_ind_wq : ℕ
  pub channel_open : Bool
  pub read_intr : Bool

-- What the calls of an opening give: whether `create_freezable_workqueue` and `create_workqueue` have
-- memory, `smd_named_open_on_edge`, and the time that the waiting for the completion has left.
pub record Attempt : Type 0 where
  pub ind_queue_memory : Bool
  pub queue_memory : Bool
  pub named_result : ℕ
  pub left : ℤ

-- An `int` as a result: `code` is any other value than 0.
abbrev pub ret_of_ℤ : ℤ → Ret
ret_of_ℤ (pos n) = ret_of n
ret_of_ℤ (negsuc n) = code n

abbrev pub is_positive : ℤ → Bool
is_positive (pos zero) = false
is_positive (pos (suc n)) = true
is_positive (negsuc n) = false

-- After the channel was opened: `if (left <= 0) return left`.
unfoldable pub wait_open : ℤ → Link → Ret × Link
wait_open left l =
    if is_positive left then (ok, record l { read_intr = false }) else (ret_of_ℤ left, l)

-- By what `smd_named_open_on_edge` gives; a failure leaves `wq` as it is.
unfoldable pub named_open : ℕ → ℤ → Link → Ret × Link
unfolding wait_open
named_open zero left l = wait_open left (record l { channel_open = true; read_intr = true })
named_open (suc n) left l = (code (suc n), l)

unfoldable pub msm_smd_open : Attempt → Link → Ret × Link
unfolding named_open
msm_smd_open a l =
    if a.queue_memory
    then named_open a.named_result a.left (record l { wq = l.wq + 1 })
    else (err enomem, l)

unfoldable pub msm_smd_close : Link → Link
msm_smd_close l = record l { wq = l.wq - 1; channel_open = false }

-- `free_wq`
unfoldable pub free_wq : Ret × Link → Ret × Link
free_wq (r, l) = if failed r then (r, record l { hal_ind_wq = l.hal_ind_wq - 1 }) else (r, l)

-- `wcn36xx_smd_open`; the indications of an earlier opening leave the queue unfreed.
unfoldable pub smd_open : Attempt → Link → Hal → Ret × Link × Hal
unfolding msm_smd_open free_wq
smd_open a l h =
    let reset = record h { ind_queue = []; ind_pending = false } in
    let (r, l') = free_wq (msm_smd_open a (record l { hal_ind_wq = l.hal_ind_wq + 1 })) in
    if a.ind_queue_memory then (r, l', reset) else (err enomem, l, h)

unfoldable pub closed_after : Link → Option IndState → Option (Link × IndState)
closed_after l none = none
closed_after l (some s) = some (record l { hal_ind_wq = l.hal_ind_wq - 1 }, s)

-- `wcn36xx_smd_close`: `destroy_workqueue` runs a work that is queued first.
unfoldable pub smd_close : Link → IndState → Option (Link × IndState)
unfolding msm_smd_close closed_after
smd_close l s = closed_after (msm_smd_close l) (run_ind_wq s)

-- The waiting ended with time left, or with none; not by a signal.
abbrev pub NotNegative : ℤ → Type 0
NotNegative (pos n) = Unit {0}
NotNegative (negsuc n) = ⊥

-- What is told of an opening.
abbrev pub OpenOutcome : Attempt → Link → Ret × Link × Hal → Type 0
OpenOutcome a l (r, l', h') =
    ((r ≡ ok) ↔ ((a.named_result ≡ 0) × NotNegative a.left))
    × (l'.wq ≡ l.wq + 1)
    × (l'.hal_ind_wq ≡ (if failed r then l.hal_ind_wq else l.hal_ind_wq + 1))
    × (l'.channel_open ≡ (if a.named_result == 0 then true else l.channel_open))
    × (l'.read_intr ≡ (if a.named_result == 0 then not (is_positive a.left) else l.read_intr))

opened :
    (iq q : Bool) (n : ℕ) (left : ℤ) (l : Link) (h : Hal)
    → iq ≡ true
    → q ≡ true
    → let a : Attempt = record {
      ind_queue_memory = iq;
      queue_memory = q;
      named_result = n;
      left = left;
    } in
      OpenOutcome a l (smd_open a l h)
unfolding smd_open msm_smd_open wait_open free_wq
opened false q n left l h ei eq = cc
opened true false n left l h ei eq = cc
opened true true zero (pos zero) l h ei eq = (ground arith, refl, refl, refl, refl)
opened true true zero (pos (suc n)) l h ei eq = (ground arith, refl, refl, refl, refl)
opened true true zero (negsuc n) l h ei eq = (ground arith, refl, omega arith, refl, refl)
opened true true (suc m) left l h ei eq =
    (ground arith, refl, omega arith, ground arith, ground arith)

-- An opening for which both queues have memory returns 0 exactly when the channel could be opened and
-- the waiting was not interrupted, also when it timed out. Whatever is returned, the queue of the
-- platform module is there, a channel that could be opened is open, and its read interrupt is off only
-- if the waiting had time left; only the queue of the driver is destroyed by a failure.
pub smd_open_lem :
    (a : Attempt) (l : Link) (h : Hal)
    → a.ind_queue_memory ≡ true
    → a.queue_memory ≡ true
    → OpenOutcome a l (smd_open a l h)
smd_open_lem a l h = opened a.ind_queue_memory a.queue_memory a.named_result a.left l h

-- The link after an opening that did not fail.
abbrev pub open_link : Attempt → Link → Link
open_link a l = record {
  wq = l.wq + 1;
  hal_ind_wq = l.hal_ind_wq + 1;
  channel_open = true;
  read_intr = not (is_positive a.left);
}

-- What the calls of an opening that succeeds give.
pub record Opens (a : Attempt) : Type 0 where
  pub ind_queue : a.ind_queue_memory ≡ true
  pub queue : a.queue_memory ≡ true
  pub named : a.named_result ≡ 0
  pub waited : NotNegative a.left

opens :
    (iq q : Bool) (n : ℕ) (left : ℤ) (l : Link) (h : Hal)
    → iq ≡ true
    → q ≡ true
    → n ≡ 0
    → NotNegative left
    → let a : Attempt = record {
      ind_queue_memory = iq;
      queue_memory = q;
      named_result = n;
      left = left;
    } in
      smd_open a l h ≡ (ok, open_link a l, record h { ind_queue = []; ind_pending = false })
unfolding smd_open msm_smd_open wait_open free_wq
opens false q n left l h ei eq en ne = cc
opens true false n left l h ei eq en ne = cc
opens true true zero (pos zero) l h ei eq en ne = refl
opens true true zero (pos (suc n)) l h ei eq en ne = refl
opens true true zero (negsuc n) l h ei eq en ne = absurd ne
opens true true (suc m) left l h ei eq en ne = absurd (omega arith)

pub smd_open-Opens :
    (a : Attempt) (l : Link) (h : Hal)
    → Opens a
    → smd_open a l h ≡ (ok, open_link a l, record h { ind_queue = []; ind_pending = false })
smd_open-Opens a l h o =
    opens a.ind_queue_memory a.queue_memory a.named_result a.left l h o.ind_queue o.queue o.named
      o.waited
