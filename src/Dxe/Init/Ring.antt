-- ===== src/Dxe/Init/Ring.antt =====
-- A transmit channel that was set up is a well-formed ring without frames.
use wcn36xx.Common.{ℕ, ◌%◌, ◌≤◌, ◌<◌, ◌≡◌, ap, ◌∙◌, false, none, some, arith}
use wcn36xx.Dxe.State.{Channel, valid}
use wcn36xx.Dxe.Tx.{size}
use wcn36xx.Dxe.Tx.Write.{skb_at}
use wcn36xx.Dxe.Tx.Invariant.{valid_at, IsRing}
use wcn36xx.Dxe.Init.{Pool, first_desc, descs_loop, init_descs, tx_bd_loop, init_tx_bd}
use wcn36xx.Dxe.Init.Bds.{tx_bd_loop-BdsPut}
use wcn36xx.Dxe.Init.Descs.{DescsPut, descs_loop-DescsPut}

-- The channel as `wcn36xx_dxe_init` leaves it for sending.
abbrev pub set_up : ℕ → Pool → Channel → Channel
set_up dma_addr pool ch = init_tx_bd pool (init_descs (some dma_addr) ch).1

-- A transmit channel with an even number of blocks, whose head and tail are the first of them and
-- which holds no frames, is a well-formed ring without used blocks once it is set up.
pub set_up-IsRing :
    (dma_addr : ℕ) (pool : Pool) (ch : Channel)
    → valid (first_desc ch.ch_type) ≡ false
    → size ch % 2 ≡ 0
    → 2 ≤ size ch
    → ch.head ≡ 0
    → ch.tail ≡ 0
    → ((j : ℕ) → j < size ch → (skb_at ch j ≡ none) × (valid_at ch j ≡ false))
    → IsRing (set_up dma_addr pool ch) 0
unfolding init_tx_bd init_descs
set_up-IsRing dma_addr pool ch tx even two h t fresh =
    let mid = descs_loop dma_addr (size ch) 0 ch.head ch.head ch in
    let d : DescsPut ch mid = descs_loop-DescsPut dma_addr (size ch) 0 ch.head ch.head ch tx in
    let b =
      tx_bd_loop-BdsPut pool.chunk_size (size mid) 0 mid.head pool.phy_addr pool.virt_addr mid
        (omega arith) (λ one. d.same_head ∙ h) in
    let done = tx_bd_loop pool.chunk_size (size mid) 0 mid.head pool.phy_addr pool.virt_addr mid in
    let m : size done ≡ size ch = b.same_size ∙ d.same_size in
    let head_0 : done.head ≡ 0 = b.same_head ∙ d.same_head ∙ h in
    let tail_0 : done.tail ≡ 0 = b.same_tail ∙ d.same_tail ∙ t in
    let no_skb : (j : ℕ) → j < size ch → skb_at done j ≡ none =
      λ j lt. b.same_skb j ∙ d.same_skb j lt ∙ (fresh j lt).0 in
    record {
      even_size = ap (λ n. n % 2) m ∙ even;
      not_small = omega (arith, m);
      head_inside = omega (arith, m, head_0);
      tail_inside = omega (arith, m, tail_0);
      even_head = ap (λ n. n % 2) head_0;
      used_fits = omega arith;
      span = ground (arith, m, head_0, tail_0);
      bds = λ i lt. b.after i (omega arith) (omega (arith, b.same_size));
      no_skb = λ i lt e. no_skb i (omega (arith, m));
      busy = λ i lt odd far. absurd (omega arith);
      free = λ i lt far. no_skb i (omega (arith, m));
      idle = λ i lt far.
          b.same_valid i ∙ d.not_valid i (omega (arith, m)) (fresh i (omega (arith, m))).1;
    }
