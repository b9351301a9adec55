-- ===== src/Dxe/Setup/Fresh.antt =====
-- The rings that setting up fresh channels leaves, and where their first descriptors are.
use wcn36xx.Common.{
  ℕ, zero, suc, ◌+◌, ◌%◌, ◌≤◌, ◌<◌, ◌≡◌, refl, ap, ◌∙◌, inl, inr, Bool, true, false, Bool-cases,
  ==_iff, ◌==◌, if◌then◌else◌, Option, none, arith,
}
use wcn36xx.Dxe.State.{
  Skb, Block, Channel, ChType, tx_l, tx_h, rx_l, rx_h, block_at, next, valid, update,
}
use wcn36xx.Dxe.Tx.{size}
use wcn36xx.Dxe.Tx.Write.{skb_at}
use wcn36xx.Dxe.Tx.Invariant.{valid_at, IsRing}
use wcn36xx.Dxe.Init.{
  Pool, first_desc, with_pool_bd, descs_loop, init_descs, tx_bd_loop, init_tx_bd,
}
use wcn36xx.Dxe.Init.Ring.{set_up, set_up-IsRing}
use wcn36xx.Dxe.Rx.Invariant.{receives}
use wcn36xx.Dxe.Setup.{head_block}
use wcn36xx.Dxe.Setup.Placed.{update_at, update-SameShape, descs_loop-Placed}

-- A transmit channel and a receive channel before the start.
pub record FreshTx (ch : Channel) : Type 0 where
  pub sends : receives ch.ch_type ≡ false
  pub even_size : size ch % 2 ≡ 0
  pub not_small : 2 ≤ size ch
  pub head_0 : ch.head ≡ 0
  pub tail_0 : ch.tail ≡ 0
  pub empty : (j : ℕ) → j < size ch → (skb_at ch j ≡ none) × (valid_at ch j ≡ false)

pub record FreshRx (ch : Channel) : Type 0 where
  pub kind : receives ch.ch_type ≡ true
  pub not_empty : 1 ≤ size ch
  pub head_0 : ch.head ≡ 0

abbrev addr_at : Channel → ℕ → ℕ
addr_at ch j = (block_at ch j).desc_phy_addr

pool_bd_addr :
    (i phy cpu : ℕ) (b : Block) → (with_pool_bd i phy cpu b).desc_phy_addr ≡ b.desc_phy_addr
unfolding with_pool_bd
pool_bd_addr i phy cpu b = ground arith

put_same_addr :
    (i phy cpu cur j : ℕ) (ch : Channel)
    → cur < size ch
    → addr_at (update cur (with_pool_bd i phy cpu (block_at ch cur)) ch) j ≡ addr_at ch j
put_same_addr i phy cpu cur j ch lt =
    let b = with_pool_bd i phy cpu (block_at ch cur) in
    elim (Bool-cases (cur == j)) [
      | inl e ↦
          let here = (==_iff cur j).0 e in
          (update_at (λ (x : Block). x.desc_phy_addr) cur j b ch lt).0 here
          ∙ pool_bd_addr i phy cpu (block_at ch cur)
          ∙ ap (addr_at ch) here
      | inr e ↦
          (update_at (λ (x : Block). x.desc_phy_addr) cur j b ch lt).1 (λ q. absurd (ground arith))
    ]

tx_bd_same_addr :
    (chunk k i cur phy cpu : ℕ) (ch : Channel)
    → cur < size ch
    → (j : ℕ) → addr_at (tx_bd_loop chunk k i cur phy cpu ch) j ≡ addr_at ch j
unfolding tx_bd_loop
tx_bd_same_addr chunk zero i cur phy cpu ch lt j = refl
tx_bd_same_addr chunk (suc k) i cur phy cpu ch lt j =
    let b = with_pool_bd i phy cpu (block_at ch cur) in
    let used = if i % 2 == 0 then chunk else 0 in
    let put = update cur b ch in
    let m : size put ≡ size ch = (update-SameShape cur b ch).same_size in
    tx_bd_same_addr chunk k (suc i) (next (size ch) cur) (phy + used) (cpu + used) put
      (ground (arith, m)) j
    ∙ put_same_addr i phy cpu cur j ch lt

sends-idle : (t : ChType) → receives t ≡ false → valid (first_desc t) ≡ false
unfolding first_desc
sends-idle tx_l e = refl
sends-idle tx_h e = refl
sends-idle rx_l e = cc
sends-idle rx_h e = cc

tx_bd_same_head :
    (chunk k i cur phy cpu : ℕ) (ch : Channel)
    → (tx_bd_loop chunk k i cur phy cpu ch).head ≡ ch.head
unfolding tx_bd_loop update
tx_bd_same_head chunk zero i cur phy cpu ch = refl
tx_bd_same_head chunk (suc k) i cur phy cpu ch =
    let used = if i % 2 == 0 then chunk else 0 in
    tx_bd_same_head chunk k (suc i) (next (size ch) cur) (phy + used) (cpu + used)
      (update cur (with_pool_bd i phy cpu (block_at ch cur)) ch)

module _ (dma_addr : ℕ) (pool : Pool) (ch : Channel) (f : FreshTx ch) where
  pub set_up-first_addr : (head_block (set_up dma_addr pool ch)).desc_phy_addr ≡ dma_addr
  unfolding init_descs init_tx_bd
  set_up-first_addr =
      let mid = descs_loop dma_addr (size ch) 0 ch.head ch.head ch in
      let p =
        descs_loop-Placed dma_addr (size ch) 0 ch.head ch.head ch (omega arith) (λ _. f.head_0)
          (omega (arith, f.head_0, f.not_small)) in
      let mid_head : mid.head ≡ 0 = p.shape.same_head ∙ f.head_0 in
      let done =
        tx_bd_loop pool.chunk_size (size mid) 0 mid.head pool.phy_addr pool.virt_addr mid in
      let head_0 : done.head ≡ 0 =
        tx_bd_same_head pool.chunk_size (size mid) 0 mid.head pool.phy_addr pool.virt_addr mid
        ∙ mid_head in
      ap (addr_at done) head_0
      ∙ tx_bd_same_addr pool.chunk_size (size mid) 0 mid.head pool.phy_addr pool.virt_addr mid
          (omega (arith, mid_head, p.shape.same_size, f.not_small)) 0
      ∙ ap (λ (v : Option Skb × Bool × ℕ). v.2)
          (p.after 0 (omega arith) (omega (arith, f.not_small)))
      ∙ omega arith

  pub FreshTx-IsRing : IsRing (set_up dma_addr pool ch) 0
  FreshTx-IsRing =
      set_up-IsRing dma_addr pool ch (sends-idle ch.ch_type f.sends) f.even_size f.not_small
        f.head_0 f.tail_0 f.empty
