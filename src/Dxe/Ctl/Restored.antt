-- ===== src/Dxe/Ctl/Restored.antt =====
-- Allocating the control blocks of a channel and freeing them: what is given back, and what happens
-- when the memory ends.
use wcn36xx.Common.{
  ℕ, suc, ◌-◌, ◌≤◌, ◌<◌, ◌≡◌, ◌≢◌, ◌⊎◌, refl, sym, ap, ◌∙◌, inl, inr, false, ◌==◌, none, some, List,
  ◌∷◌, ◌++◌, length, ok, err, enomem, arith,
}
use wcn36xx.Dxe.Ctl.{
  Ptr, null, ctl, Cells, Mem, write, load, CtlCh, free_loop, free_ctl_block, pure, out_fail,
  unless_failed, after_tx_l, allocate_loop, allocate_ctl_block, Channels, free_ctl_blks, out_err,
  alloc_ctl_blks, desc_nums,
}
use wcn36xx.Dxe.Ctl.Chain.{
  Distinct, Unused, first, linked_up, Linked, linked_up-Linked, write_self, free_loop-freed,
  freed-linked_up,
}
use wcn36xx.Dxe.Ctl.Allocate.{heap, first_round, rounds, rounds_short, overwritten, then_step}

-- The channel with its blocks.
abbrev pub with_head : Ptr → CtlCh → CtlCh
with_head p ch = record ch { head_blk_ctl = p; tail_blk_ctl = p }

free_chain :
    (k : ℕ) (ps : List Ptr) (last : Ptr) (c : Cells) (rest : List Ptr)
    → Distinct ps
    → Unused c ps
    → length ps ≤ k
    → (k ≡ length ps) ⊎ (last ≡ null)
    → free_loop k (first ps last) (heap (linked_up 0 ps last c) rest) ≡ some (tt, heap c rest)
free_chain k ps last c rest d u le end =
    free_loop-freed k 0 ps last (heap (linked_up 0 ps last c) rest) (linked_up-Linked 0 ps last c d)
      d le end
    ∙ ap (λ x. some (tt, heap x rest)) (freed-linked_up 0 ps last c u)

-- With memory for all the blocks of a channel, at different addresses that are not in use: the call
-- returns 0 and leaves a ring of blocks, numbered in order, with head and tail at the first one, in an
-- otherwise unchanged heap. Freeing the ring gives the heap before.
pub allocate_ctl_block-free_ctl_block :
    (p q : Ptr) (ps rest : List Ptr) (c : Cells) (ch : CtlCh)
    → length (p ∷ q ∷ ps) ≡ ch.desc_num
    → Distinct (p ∷ q ∷ ps)
    → Unused c (p ∷ q ∷ ps)
    → let ring = heap (linked_up 0 (p ∷ q ∷ ps) p c) rest in
      (allocate_ctl_block ch (heap c (p ∷ q ∷ (ps ++ rest))) ≡ some ((ok, with_head p ch), ring))
      × Linked ring.cells 0 (p ∷ q ∷ ps) p
      × (free_ctl_block (with_head p ch) ring ≡ some (tt, heap c rest))
unfolding allocate_ctl_block free_ctl_block linked_up
allocate_ctl_block-free_ctl_block p q ps rest c ch count (nz, apart, d) u =
    let c1 = write c p (some (ctl 0 null)) in
    (
      ap (λ k. allocate_loop k 0 null ch (heap c (p ∷ q ∷ (ps ++ rest)))) (sym count)
          ∙ first_round (suc (length ps)) 0 0 null p (q ∷ (ps ++ rest)) c ch nz refl
          ∙ rounds 1 0 p q ps rest c1 (with_head p ch) (omega arith) (omega arith)
              (write_self c p (some (ctl 0 null))) apart d
          ∙ ap (λ x. some ((ok, with_head p ch), heap (linked_up 1 (q ∷ ps) p x) rest))
              (overwritten c p (some (ctl 0 null)) (some (ctl 0 q))),
      linked_up-Linked 0 (p ∷ q ∷ ps) p c (nz, apart, d),
      free_chain ch.desc_num (p ∷ q ∷ ps) p c rest (nz, apart, d) u (omega arith) (inl (sym count)),
    )

-- When the memory ends after at least one block, and before the last: the call frees the blocks that
-- it has, so that the heap is what it was, and returns -ENOMEM; the channel still points to the first
-- of them.
pub allocate_ctl_block_short :
    (p : Ptr) (ps rest : List Ptr) (c : Cells) (ch : CtlCh)
    → length (p ∷ ps) < ch.desc_num
    → Distinct (p ∷ ps)
    → Unused c (p ∷ ps)
    → allocate_ctl_block ch (heap c (p ∷ (ps ++ null ∷ rest)))
      ≡ some ((err enomem, with_head p ch), heap c rest)
unfolding allocate_ctl_block out_fail free_ctl_block linked_up
allocate_ctl_block_short p ps rest c ch short (nz, apart, d) u =
    let c1 = write c p (some (ctl 0 null)) in
    let more : ch.desc_num ≡ suc (ch.desc_num - 1) = omega arith in
    let freed_again : free_ctl_block (with_head p ch) (heap (linked_up 0 (p ∷ ps) null c) rest)
        ≡ some (tt, heap c rest) =
      free_chain ch.desc_num (p ∷ ps) null c rest (nz, apart, d) u (omega arith) (inr refl) in
    ap (λ k. allocate_loop k 0 null ch (heap c (p ∷ (ps ++ null ∷ rest)))) more
    ∙ first_round (ch.desc_num - 1) 0 0 null p (ps ++ null ∷ rest) c ch nz refl
    ∙ rounds_short (ch.desc_num - 1) 1 0 p ps rest c1 (with_head p ch) (omega arith) (omega arith)
        (omega arith) (write_self c p (some (ctl 0 null))) apart d
    ∙ ap (λ x. out_fail (with_head p ch) (heap (linked_up 1 ps null x) rest))
        (overwritten c p (some (ctl 0 null)) (some (ctl 0 (first ps null))))
    ∙ then_step (free_ctl_block (with_head p ch) (heap (linked_up 0 (p ∷ ps) null c) rest))
        (λ _. pure (err enomem, with_head p ch)) tt (heap c rest) freed_again

dangling : (k : ℕ) (p : Ptr) (m : Mem) → p ≢ null → m.cells p ≡ none → free_loop (suc k) p m ≡ none
unfolding free_loop load
dangling k p m live gone = let alive : (p == null) ≡ false = ground arith in rw (alive, gone) refl

-- When the memory ends after at least one block of the first channel, and before its last, the whole
-- call frees memory that is not allocated: the blocks of that channel are freed once by
-- wcn36xx_dxe_allocate_ctl_block and again by wcn36xx_dxe_free_ctl_blks.
pub alloc_ctl_blks_faults :
    (p : Ptr) (ps rest : List Ptr) (c : Cells) (w : Channels)
    → length (p ∷ ps) < 128
    → Distinct (p ∷ ps)
    → Unused c (p ∷ ps)
    → alloc_ctl_blks w (heap c (p ∷ (ps ++ null ∷ rest))) ≡ none
unfolding alloc_ctl_blks out_err free_ctl_blks free_ctl_block desc_nums
alloc_ctl_blks_faults p ps rest c w short (nz, apart, d) u =
    let tx_l = (desc_nums w).tx_l in
    let w1 = record (desc_nums w) { tx_l = with_head p tx_l } in
    then_step (allocate_ctl_block tx_l (heap c (p ∷ (ps ++ null ∷ rest))))
      (λ rc.
        unless_failed rc.0 (record (desc_nums w) { tx_l = rc.1 })
          (after_tx_l (record (desc_nums w) { tx_l = rc.1 })))
      (err enomem, with_head p tx_l) (heap c rest)
      (allocate_ctl_block_short p ps rest c tx_l short (nz, apart, d) u)
    ∙ rw (dangling 127 p (heap c rest) nz u.0) refl
