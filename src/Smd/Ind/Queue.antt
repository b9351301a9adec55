-- ===== src/Smd/Ind/Queue.antt =====
-- A queued work finds a message, and leaves all the others.
use wcn36xx.Common.{
  ℕ, ◌≡◌, ◌≢◌, refl, sym, ap, ◌∙◌, inl, inr, true, false, Bool-cases, Option, some, List, [], ◌∷◌,
  ◌++◌, append_assoc, le16_at,
}
use mathlib.Core.Path.{subst}
use mathlib.Core.Bool.{true≢false}
use wcn36xx.Smd.State.{Hal, first_or_true, tail_of}
use wcn36xx.Smd.Receive.{
  is_one_of, responses, indications, complete_with, queue_copy, queue_indication, rsp_process,
  arrivals,
}
use wcn36xx.Smd.Ind.{IndState, dispatch_ind, take_ind, ind_smd_work, run_ind_wq}

-- The work is queued only when there is a message for it.
abbrev pub HasWork : Hal → Type 0
HasWork h = h.ind_pending ≡ true → h.ind_queue ≢ []

not-nil : (ms : List (List ℕ)) (m : List ℕ) → ms ++ (m ∷ []) ≢ []
not-nil [] m e = cc
not-nil (x ∷ ms) m e = cc

queue_indication-HasWork : (m : List ℕ) (h : Hal) → HasWork h → HasWork (queue_indication m h)
unfolding queue_indication queue_copy
queue_indication-HasWork m h work = elim (Bool-cases (first_or_true h.allocs)) [
  | inr e ↦ rw e work
  | inl e ↦ elim (Bool-cases (first_or_true (tail_of h.allocs))) [
    | inr f ↦ rw (e, f) work
    | inl f ↦ rw (e, f) (λ p. not-nil h.ind_queue m)
  ]
]

pub rsp_process-HasWork : (h : Hal) (m : List ℕ) → HasWork h → HasWork (rsp_process h m)
unfolding rsp_process complete_with
rsp_process-HasWork h m work = elim (Bool-cases (is_one_of (le16_at 0 m) responses)) [
  | inl e ↦ rw e work
  | inr e ↦ elim (Bool-cases (is_one_of (le16_at 0 m) indications)) [
    | inl f ↦ rw (e, f) (queue_indication-HasWork m h work)
    | inr f ↦ rw (e, f) work
  ]
]

-- Whatever comes in, and whatever memory there is, the work is queued only when there is a message
-- for it.
arrivals-HasWork : (ms : List (List ℕ)) (h : Hal) → HasWork h → HasWork (arrivals ms h)
unfolding arrivals
arrivals-HasWork [] h work = work
arrivals-HasWork (m ∷ ms) h work =
    arrivals-HasWork ms (rsp_process h m) (rsp_process-HasWork h m work)

-- What a run leaves.
pub record Ran (s : IndState) (result : Option IndState) : Type 0 where
  pub after : IndState
  pub returns : result ≡ some after
  pub work : HasWork after.hal

take_ind-Ran :
    (q : List (List ℕ)) (s : IndState) → s.hal.ind_pending ≡ false → q ≢ [] → Ran s (take_ind q s)
unfolding take_ind
take_ind-Ran [] s idle ne = absurd (ne refl)
take_ind-Ran (m ∷ ms) s idle ne = record {
  after = record s {
    hal = record s.hal { ind_queue = ms };
    calls = s.calls ++ dispatch_ind s.info s.vifs m;
  };
  returns = refl;
  work = λ p. absurd (true≢false (sym p ∙ idle));
}

abbrev started : IndState → IndState
started s = record s { hal = record s.hal { ind_pending = false } }

-- When the work is queued only with a message for it, a run never takes a message from an empty list,
-- and leaves it so.
run_ind_wq-Ran : (s : IndState) → HasWork s.hal → Ran s (run_ind_wq s)
unfolding run_ind_wq ind_smd_work
run_ind_wq-Ran s work = elim (Bool-cases s.hal.ind_pending) [
  | inr e ↦ record { after = s; returns = rw e refl; work = work }
  | inl e ↦
      let ran = take_ind-Ran s.hal.ind_queue (started s) refl (work e) in
      record { after = ran.after; returns = rw e ran.returns; work = ran.work }
]

unfoldable pub AllIndications : List (List ℕ) → Type 0
AllIndications [] = Unit {0}
AllIndications (m ∷ ms) =
    (is_one_of (le16_at 0 m) responses ≡ false)
    × (is_one_of (le16_at 0 m) indications ≡ true)
    × AllIndications ms

one_queued :
    (m : List ℕ) (h : Hal)
    → is_one_of (le16_at 0 m) responses ≡ false
    → is_one_of (le16_at 0 m) indications ≡ true
    → h.allocs ≡ []
    → rsp_process h m
      ≡ record h { ind_queue = h.ind_queue ++ (m ∷ []); ind_pending = true; allocs = [] }
unfolding rsp_process queue_indication queue_copy
one_queued m h e f a = rw (e, f, a) refl

-- Indications that come in with enough memory are all queued, in order.
all_queued :
    (m : List ℕ) (ms : List (List ℕ)) (h : Hal)
    → AllIndications (m ∷ ms)
    → h.allocs ≡ []
    → ((arrivals (m ∷ ms) h).ind_queue ≡ h.ind_queue ++ (m ∷ ms))
      × ((arrivals (m ∷ ms) h).ind_pending ≡ true)
unfolding arrivals AllIndications
all_queued m [] h (e, f, all) a = rw (one_queued m h e f a, arrivals) (refl, refl)
all_queued m (x ∷ ms) h (e, f, all) a =
    let next = record h { ind_queue = h.ind_queue ++ (m ∷ []); ind_pending = true; allocs = [] } in
    let (q, p) = all_queued x ms next all refl in
    subst
      (λ k.
        ((arrivals (x ∷ ms) k).ind_queue ≡ h.ind_queue ++ (m ∷ x ∷ ms))
        × ((arrivals (x ∷ ms) k).ind_pending ≡ true))
      (sym (one_queued m h e f a)) (q ∙ append_assoc h.ind_queue (m ∷ []) (x ∷ ms), p)

-- What is left when the work runs once.
pub record Backlog (s : IndState) (m : List ℕ) (ms : List (List ℕ)) (result : Option IndState)
    : Type 0 where
  pub after : IndState
  pub returns : result ≡ some after
  pub handled : after.calls ≡ s.calls ++ dispatch_ind s.info s.vifs m
  pub left : after.hal.ind_queue ≡ ms
  pub forgotten : after.hal.ind_pending ≡ false

take_ind-Backlog :
    (m : List ℕ) (ms q : List (List ℕ)) (s t : IndState)
    → q ≡ m ∷ ms
    → t.hal.ind_pending ≡ false
    → t.calls ≡ s.calls
    → t.info ≡ s.info
    → t.vifs ≡ s.vifs
    → Backlog s m ms (take_ind q t)
unfolding take_ind
take_ind-Backlog m ms q s t e idle c i v = rw e (record {
  after = record t {
    hal = record t.hal { ind_queue = ms };
    calls = t.calls ++ dispatch_ind t.info t.vifs m;
  };
  returns = refl;
  handled = rw (c, i, v) refl;
  left = refl;
  forgotten = idle;
})

-- Indications that come in with memory before the work has run: one run handles the first and leaves
-- the others in the queue, and the work is not queued for them.
pub run_ind_wq-Backlog :
    (s : IndState) (m : List ℕ) (ms : List (List ℕ))
    → AllIndications (m ∷ ms)
    → s.hal.allocs ≡ []
    → s.hal.ind_queue ≡ []
    → Backlog s m ms (run_ind_wq (record s { hal = arrivals (m ∷ ms) s.hal }))
unfolding run_ind_wq ind_smd_work
run_ind_wq-Backlog s m ms all a empty =
    let (q, p) = all_queued m ms s.hal all a in
    let arrived = record s { hal = arrivals (m ∷ ms) s.hal } in
    rw p (
      take_ind-Backlog m ms arrived.hal.ind_queue s (started arrived)
        (q ∙ ap (λ r. r ++ (m ∷ ms)) empty) refl refl refl refl)

-- When the work is queued only with a message for it: it is so after whatever messages come in, with
-- whatever memory there is; and a run of the queue never takes a message from an empty list, and
-- leaves it so.
pub arrivals-run_ind_wq :
    (ms : List (List ℕ)) (s : IndState)
    → HasWork s.hal
    → HasWork (arrivals ms s.hal) × Ran s (run_ind_wq s)
arrivals-run_ind_wq ms s work = (arrivals-HasWork ms s.hal work, run_ind_wq-Ran s work)
