-- ===== src/Dxe/Init/Descs.antt =====
-- The loop of `wcn36xx_dxe_init_descs` keeps the frames and makes no descriptor of a transmit channel
-- valid.
use wcn36xx.Common.{
  ℕ, zero, suc, ◌-◌, ◌<◌, ◌≡◌, refl, ap, ◌∙◌, inl, inr, false, Bool-cases, ==_iff, ltb, ◌==◌, arith,
}
use mathlib.Core.Path.{subst}
use wcn36xx.Dxe.State.{Block, Channel, block_at, next, valid, update}
use wcn36xx.Dxe.Tx.{size}
use wcn36xx.Dxe.Tx.Write.{skb_at, update_self, update_ne, size-update}
use wcn36xx.Dxe.Tx.Invariant.{valid_at}
use wcn36xx.Dxe.Init.{first_desc, link_to, place_desc, link_desc, descs_loop}

-- What the writes of the descriptor loop keep of a transmit channel.
pub record DescsPut (ch : Channel) (done : Channel) : Type 0 where
  pub same_size : size done ≡ size ch
  pub same_head : done.head ≡ ch.head
  pub same_tail : done.tail ≡ ch.tail
  pub same_type : done.ch_type ≡ ch.ch_type
  pub same_skb : (j : ℕ) → j < size ch → skb_at done j ≡ skb_at ch j
  pub not_valid : (j : ℕ) → j < size ch → valid_at ch j ≡ false → valid_at done j ≡ false

DescsPut-self : (ch : Channel) → DescsPut ch ch
DescsPut-self ch = record {
  same_size = refl;
  same_head = refl;
  same_tail = refl;
  same_type = refl;
  same_skb = λ j lt. refl;
  not_valid = λ j lt v. v;
}

DescsPut-trans : (a b c : Channel) → DescsPut a b → DescsPut b c → DescsPut a c
DescsPut-trans a b c p q = record {
  same_size = q.same_size ∙ p.same_size;
  same_head = q.same_head ∙ p.same_head;
  same_tail = q.same_tail ∙ p.same_tail;
  same_type = q.same_type ∙ p.same_type;
  same_skb = λ j lt. q.same_skb j (omega (arith, p.same_size)) ∙ p.same_skb j lt;
  not_valid = λ j lt v. q.not_valid j (omega (arith, p.same_size)) (p.not_valid j lt v);
}

-- A write that keeps the frame of a block and does not make its descriptor valid.
update-DescsPut :
    (i : ℕ) (b : Block) (ch : Channel)
    → b.skb ≡ skb_at ch i
    → (valid_at ch i ≡ false → valid b.desc ≡ false)
    → DescsPut ch (update i b ch)
unfolding update
update-DescsPut i b ch s v = record {
  same_size = size-update ch i b;
  same_head = refl;
  same_tail = refl;
  same_type = refl;
  same_skb = λ j lt. elim (Bool-cases (i == j)) [
    | inl e ↦
        let same = (==_iff i j).0 e in
        subst (λ k. skb_at (update i b ch) k ≡ skb_at ch k) same
          (ap (λ (c : Block). c.skb) (update_self ch i b (omega (arith, same))) ∙ s)
    | inr e ↦ ap (λ (c : Block). c.skb) (update_ne ch i j b (λ q. absurd (ground arith)))
  ];
  not_valid = λ j lt old. elim (Bool-cases (i == j)) [
    | inl e ↦
        let same = (==_iff i j).0 e in
        subst (λ k. valid_at ch k ≡ false → valid_at (update i b ch) k ≡ false) same
          (λ o. ap (λ (c : Block). valid c.desc) (update_self ch i b (omega (arith, same))) ∙ v o)
          old
    | inr e ↦
        ap (λ (c : Block). valid c.desc) (update_ne ch i j b (λ q. absurd (ground arith))) ∙ old
  ];
}

link-DescsPut :
    (i addr : ℕ) (ch : Channel) → DescsPut ch (update i (link_to addr (block_at ch i)) ch)
unfolding link_to
link-DescsPut i addr ch = update-DescsPut i (link_to addr (block_at ch i)) ch refl (λ v. v)

link_desc-DescsPut : (i cur prev : ℕ) (ch : Channel) → DescsPut ch (link_desc i cur prev ch)
unfolding link_desc
link_desc-DescsPut i cur prev ch =
    let to_cur = update prev (link_to (block_at ch cur).desc_phy_addr (block_at ch prev)) ch in
    let linked = link-DescsPut prev (block_at ch cur).desc_phy_addr ch in
    elim (Bool-cases (i == 0)) [
      | inl e ↦ rw e (link-DescsPut cur 0 ch)
      | inr e ↦ elim (Bool-cases (ltb i (size ch - 1))) [
        | inl f ↦ rw (e, f) linked
        | inr f ↦ elim (Bool-cases (i == size ch - 1)) [
          | inl g ↦
              let to_first = (block_at to_cur ch.head).desc_phy_addr in
              rw (e, f, g)
                (DescsPut-trans ch to_cur
                  (update cur (link_to to_first (block_at to_cur cur)) to_cur) linked
                  (link-DescsPut cur to_first to_cur))
          | inr g ↦ rw (e, f, g) (DescsPut-self ch)
        ]
      ]
    ]

place_desc-DescsPut :
    (dma_addr i cur : ℕ) (ch : Channel)
    → valid (first_desc ch.ch_type) ≡ false
    → DescsPut ch (place_desc dma_addr i cur ch)
unfolding place_desc
place_desc-DescsPut dma_addr i cur ch tx = update-DescsPut cur _ ch refl (λ v. tx)

pub descs_loop-DescsPut :
    (dma_addr k i cur prev : ℕ) (ch : Channel)
    → valid (first_desc ch.ch_type) ≡ false
    → DescsPut ch (descs_loop dma_addr k i cur prev ch)
unfolding descs_loop
descs_loop-DescsPut dma_addr zero i cur prev ch tx = DescsPut-self ch
descs_loop-DescsPut dma_addr (suc k) i cur prev ch tx =
    let placed = place_desc dma_addr i cur ch in
    let linked = link_desc i cur prev placed in
    let first : DescsPut ch placed = place_desc-DescsPut dma_addr i cur ch tx in
    let second = DescsPut-trans ch placed linked first (link_desc-DescsPut i cur prev placed) in
    DescsPut-trans ch linked (descs_loop dma_addr k (suc i) (next (size ch) cur) cur linked) second
      (descs_loop-DescsPut dma_addr k (suc i) (next (size ch) cur) cur linked
        (ap (λ t. valid (first_desc t)) second.same_type ∙ tx))
