-- ===== src/Msm/Work.antt =====
-- Receiving from the shared memory channel: the loop of `wcn36xx_msm_smd_work`, with
-- `wcn36xx_smd_rsp_process` of smd.c as the callback.
use wcn36xx.Common.{
  ℤ, pos, negsuc, ℕ, ◌≤◌, ◌≡◌, refl, sym, ap, ◌∙◌, Bool, true, false, ltb, ◌==◌, if◌then◌else◌,
  List, [], ◌∷◌, ◌++◌, append-nil, length, arith,
}
use mathlib.Core.List.{map}
use wcn36xx.Smd.State.{Hal}
use wcn36xx.Smd.Receive.{rsp_process, arrivals}

abbrev pub lt_ℤ : ℤ → ℤ → Bool
lt_ℤ (pos a) (pos b) = ltb a b
lt_ℤ (pos a) (negsuc b) = false
lt_ℤ (negsuc a) (pos b) = true
lt_ℤ (negsuc a) (negsuc b) = ltb b a

abbrev pub same_ℤ : ℤ → ℤ → Bool
same_ℤ (pos a) (pos b) = a == b
same_ℤ (pos a) (negsuc b) = false
same_ℤ (negsuc a) (pos b) = false
same_ℤ (negsuc a) (negsuc b) = a == b

-- What the calls of one round give: `smd_cur_packet_size`, `smd_read_avail`, whether `kmalloc` has
-- memory, and `smd_read` with the bytes that it copies.
pub record Round : Type 0 where
  pub packet_size : ℤ
  pub read_avail : ℤ
  pub memory : Bool
  pub read : ℤ
  pub msg : List ℕ

-- The loop. A run whose rounds are used up finds no packet. The messages that are not freed are given
-- back too.
unfoldable pub smd_work : List Round → Hal → Hal × List (List ℕ)
unfolding rsp_process
smd_work [] h = (h, [])
smd_work (r ∷ rs) h =
    let rest = smd_work rs (rsp_process h r.msg) in
    if same_ℤ r.packet_size (pos 0)
    then (h, [])
    else if lt_ℤ r.read_avail r.packet_size
    then (h, [])
    else if r.memory
    then (if same_ℤ r.read r.packet_size then rest else (h, r.msg ∷ []))
    else (h, [])

-- A packet that is wholly in the channel, with memory for it.
abbrev pub whole : List ℕ → Round
whole p = record {
  packet_size = pos (length p);
  read_avail = pos (length p);
  memory = true;
  read = pos (length p);
  msg = p;
}

abbrev pub NotEmpty : List (List ℕ) → Type 0
NotEmpty [] = Unit {0}
NotEmpty (p ∷ ps) = (1 ≤ length p) × NotEmpty ps

-- A round that ends the run, by what it leaves unfreed.
pub data Stops (r : Round) : List (List ℕ) → Type 0 where
  empty : r.packet_size ≡ pos 0 → Stops r []
  incomplete : lt_ℤ r.read_avail r.packet_size ≡ true → Stops r []
  no_memory : r.memory ≡ false → Stops r []
  bad_read :
      same_ℤ r.packet_size (pos 0) ≡ false
      → lt_ℤ r.read_avail r.packet_size ≡ false
      → r.memory ≡ true
      → same_ℤ r.read r.packet_size ≡ false
      → Stops r (r.msg ∷ [])

stopped :
    (r : Round) (more : List Round) (h : Hal) (unfreed : List (List ℕ))
    → Stops r unfreed
    → smd_work (r ∷ more) h ≡ (h, unfreed)
unfolding smd_work
stopped r more h _ (empty e) = rw e refl
stopped r more h _ (incomplete e) = ground arith
stopped r more h _ (no_memory e) = ground arith
stopped r more h _ (bad_read a b c d) = rw (a, b, c, d) refl

one_whole :
    (p : List ℕ) (more : List Round) (h : Hal)
    → 1 ≤ length p
    → smd_work (whole p ∷ more) h ≡ smd_work more (rsp_process h p)
unfolding smd_work
one_whole p more h lt = ground arith

all_whole :
    (ps : List (List ℕ)) (more : List Round) (h : Hal)
    → NotEmpty ps
    → smd_work (map whole ps ++ more) h ≡ smd_work more (arrivals ps h)
unfolding arrivals
all_whole [] more h ne = refl
all_whole (p ∷ ps) more h (one, ne) =
    one_whole p (map whole ps ++ more) h one ∙ all_whole ps more (rsp_process h p) ne

arrivals-append :
    (ps qs : List (List ℕ)) (h : Hal) → arrivals (ps ++ qs) h ≡ arrivals qs (arrivals ps h)
unfolding arrivals
arrivals-append [] qs h = refl
arrivals-append (p ∷ ps) qs h = arrivals-append ps qs (rsp_process h p)

at_end : (h : Hal) → smd_work [] h ≡ (h, [])
unfolding smd_work
at_end h = refl

nothing_left :
    (qs : List (List ℕ)) (h : Hal) → NotEmpty qs → smd_work (map whole qs) h ≡ (arrivals qs h, [])
nothing_left qs h ne =
    ap (λ rs. smd_work rs h) (sym (append-nil (map whole qs)))
    ∙ all_whole qs [] h ne
    ∙ at_end (arrivals qs h)

-- With packets `ps`, none of them empty, wholly in the channel, with memory for each, and then a
-- round that ends the run: the run hands the packets to wcn36xx_smd_rsp_process in order, and all are
-- freed, but when the last round reads another number of bytes its message is not freed. With packets
-- `qs` wholly in the channel, none empty, the next run goes on as if there had been one run for all.
pub smd_work-arrivals :
    (ps qs : List (List ℕ)) (r : Round) (more : List Round) (h : Hal) (unfreed : List (List ℕ))
    → NotEmpty ps
    → NotEmpty qs
    → Stops r unfreed
    → let first = smd_work (map whole ps ++ r ∷ more) h in
      (first ≡ (arrivals ps h, unfreed))
      × (smd_work (map whole qs) first.0 ≡ (arrivals (ps ++ qs) h, []))
smd_work-arrivals ps qs r more h unfreed np nq s =
    let one = all_whole ps (r ∷ more) h np ∙ stopped r more (arrivals ps h) unfreed s in
    (
      one,
      ap (λ (x : Hal × List (List ℕ)). smd_work (map whole qs) x.0) one
          ∙ nothing_left qs (arrivals ps h) nq
          ∙ ap (λ x. (x, [])) (sym (arrivals-append ps qs h)),
    )
