-- ===== src/Dxe/Ctl/Tests.antt =====
-- Control blocks at concrete inputs.
use wcn36xx.Common.{◌≡◌, refl, none, some, [], ◌∷◌, ok, err, enomem, arith}
use wcn36xx.Dxe.Ctl.{
  null, Cells, CtlCh, Channels, free_ctl_block, allocate_ctl_block, alloc_ctl_blks,
}
use wcn36xx.Dxe.Ctl.Chain.{Distinct, Linked, linked_up}
use wcn36xx.Dxe.Ctl.Allocate.{heap}
use wcn36xx.Dxe.Ctl.Restored.{with_head, allocate_ctl_block-free_ctl_block, alloc_ctl_blks_faults}

abbrev nothing : Cells
nothing p = none

-- A channel with three blocks.
abbrev small : CtlCh
small = record { desc_num = 3; head_blk_ctl = null; tail_blk_ctl = null }

abbrev unset : Channels
unset = record { tx_l = small; tx_h = small; rx_l = small; rx_h = small }

three : Distinct (64 ∷ 96 ∷ 128 ∷ [])
three = (omega arith, refl, (omega arith, refl, (omega arith, refl, tt)))

two : Distinct (64 ∷ 96 ∷ [])
two = (omega arith, refl, (omega arith, refl, tt))

allocate_ctl_block-free_ctl_block_example :
    let ring = heap (linked_up 0 (64 ∷ 96 ∷ 128 ∷ []) 64 nothing) (256 ∷ []) in
    (allocate_ctl_block small (heap nothing (64 ∷ 96 ∷ 128 ∷ 256 ∷ []))
      ≡ some ((ok, with_head 64 small), ring))
    × Linked ring.cells 0 (64 ∷ 96 ∷ 128 ∷ []) 64
    × (free_ctl_block (with_head 64 small) ring ≡ some (tt, heap nothing (256 ∷ [])))
allocate_ctl_block-free_ctl_block_example =
    allocate_ctl_block-free_ctl_block 64 96 (128 ∷ []) (256 ∷ []) nothing small refl three
      (refl, (refl, (refl, tt)))

alloc_ctl_blks_faults_example : alloc_ctl_blks unset (heap nothing (64 ∷ 96 ∷ null ∷ [])) ≡ none
alloc_ctl_blks_faults_example =
    alloc_ctl_blks_faults 64 (96 ∷ []) [] nothing unset (omega arith) two (refl, (refl, tt))

-- Without memory for the first block nothing is freed twice.
no_memory : allocate_ctl_block small (heap nothing []) ≡ some ((err enomem, small), heap nothing [])
unfolding allocate_ctl_block
no_memory = refl
