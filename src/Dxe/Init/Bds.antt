-- ===== src/Dxe/Init/Bds.antt =====
-- The loop of `wcn36xx_dxe_init_tx_bd` gives a BD to every second block.
use wcn36xx.Common.{
  ℕ, zero, suc, ◌+◌, ◌%◌, ◌≤◌, ◌<◌, ◌≡◌, refl, ap, ◌∙◌, inl, inr, false, Bool-cases, ==_iff, ◌==◌,
  if◌then◌else◌, arith,
}
use mathlib.Core.Path.{subst}
use wcn36xx.Dxe.State.{Block, Channel, block_at, next, valid, is_some, update}
use wcn36xx.Dxe.Tx.{size}
use wcn36xx.Dxe.Tx.Write.{skb_at, bd_at, update_self, update_ne, size-update}
use wcn36xx.Dxe.Tx.Invariant.{valid_at}
use wcn36xx.Dxe.Init.{with_pool_bd, tx_bd_loop}

head-update : (ch : Channel) (i : ℕ) (b : Block) → (update i b ch).head ≡ ch.head
unfolding update
head-update ch i b = refl

tail-update : (ch : Channel) (i : ℕ) (b : Block) → (update i b ch).tail ≡ ch.tail
unfolding update
tail-update ch i b = refl

-- What the BD loop leaves at `j`, when it starts at the `i`-th block.
pub record BdsPut (ch : Channel) (i : ℕ) (done : Channel) : Type 0 where
  pub same_size : size done ≡ size ch
  pub same_head : done.head ≡ ch.head
  pub same_tail : done.tail ≡ ch.tail
  pub same_skb : (j : ℕ) → skb_at done j ≡ skb_at ch j
  pub same_valid : (j : ℕ) → valid_at done j ≡ valid_at ch j
  pub before : (j : ℕ) → j < i → bd_at done j ≡ bd_at ch j
  pub after : (j : ℕ) → i ≤ j → j < size ch → bd_at done j ≡ (j % 2 == 0)

put_skb_same :
    (i phy cpu : ℕ) (b : Block)
    → ((with_pool_bd i phy cpu b).skb ≡ b.skb)
      × ((with_pool_bd i phy cpu b).desc ≡ b.desc)
      × (is_some (with_pool_bd i phy cpu b).bd_cpu_addr ≡ (i % 2 == 0))
unfolding with_pool_bd
put_skb_same i phy cpu b = elim (Bool-cases (i % 2 == 0)) [
  | inl e ↦ rw e (refl, refl, refl)
  | inr e ↦ rw e (refl, refl, refl)
]

module _ (i phy cpu : ℕ) (ch : Channel) (lt : i < size ch) where
  abbrev one_put : Channel
  one_put = update i (with_pool_bd i phy cpu (block_at ch i)) ch

  one_put-BdsPut :
      (j : ℕ)
      → (skb_at one_put j ≡ skb_at ch j)
        × (valid_at one_put j ≡ valid_at ch j)
        × (bd_at one_put j ≡ (if i == j then j % 2 == 0 else bd_at ch j))
  one_put-BdsPut j = elim (Bool-cases (i == j)) [
    | inl e ↦
        let same = (==_iff i j).0 e in
        let own = update_self ch i (with_pool_bd i phy cpu (block_at ch i)) lt in
        let (s, d, b) = put_skb_same i phy cpu (block_at ch i) in
        rw e (
          subst
            (λ k.
              (skb_at one_put k ≡ skb_at ch k)
              × (valid_at one_put k ≡ valid_at ch k)
              × (bd_at one_put k ≡ (k % 2 == 0)))
            same
            (
              ap (λ (c : Block). c.skb) own ∙ s,
              ap (λ (c : Block). valid c.desc) own ∙ ap valid d,
              ap (λ (c : Block). is_some c.bd_cpu_addr) own ∙ b,
            ))
    | inr e ↦
        let other =
          update_ne ch i j (with_pool_bd i phy cpu (block_at ch i)) (λ q. absurd (ground arith)) in
        rw e (
          ap (λ (c : Block). c.skb) other,
          ap (λ (c : Block). valid c.desc) other,
          ap (λ (c : Block). is_some c.bd_cpu_addr) other,
        )
  ]

pub tx_bd_loop-BdsPut :
    (chunk k i cur phy cpu : ℕ) (ch : Channel)
    → i + k ≡ size ch
    → (1 ≤ k → cur ≡ i)
    → BdsPut ch i (tx_bd_loop chunk k i cur phy cpu ch)
unfolding tx_bd_loop
tx_bd_loop-BdsPut chunk zero i cur phy cpu ch e place = record {
  same_size = refl;
  same_head = refl;
  same_tail = refl;
  same_skb = λ j. refl;
  same_valid = λ j. refl;
  before = λ j lt. refl;
  after = λ j le lt. absurd (omega arith);
}
tx_bd_loop-BdsPut chunk (suc k) i cur phy cpu ch e place =
    let here : cur ≡ i = place (omega arith) in
    let lt : i < size ch = omega arith in
    let used = if i % 2 == 0 then chunk else 0 in
    let put = update i (with_pool_bd i phy cpu (block_at ch i)) ch in
    let m : size put ≡ size ch = size-update ch i (with_pool_bd i phy cpu (block_at ch i)) in
    let step = one_put-BdsPut i phy cpu ch lt in
    let rest =
      tx_bd_loop-BdsPut chunk k (suc i) (next (size ch) i) (phy + used) (cpu + used) put
        (omega arith) (λ one. ground (arith, m)) in
    rw here (record {
      same_size = rest.same_size ∙ m;
      same_head = rest.same_head ∙ head-update ch i (with_pool_bd i phy cpu (block_at ch i));
      same_tail = rest.same_tail ∙ tail-update ch i (with_pool_bd i phy cpu (block_at ch i));
      same_skb = λ j. rest.same_skb j ∙ (step j).0;
      same_valid = λ j. rest.same_valid j ∙ (step j).1;
      before = λ j j_lt.
          let other : (i == j) ≡ false = ground arith in
          rest.before j (omega arith) ∙ (step j).2 ∙ rw other refl;
      after = λ j le j_lt. elim (Bool-cases (i == j)) [
        | inl f ↦ rest.before j (ground arith) ∙ (step j).2 ∙ rw f refl
        | inr f ↦ rest.after j (ground arith) (omega arith)
      ];
    })
