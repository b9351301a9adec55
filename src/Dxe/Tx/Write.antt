-- ===== src/Dxe/Tx/Write.antt =====
-- What the writes of `wcn36xx_dxe_tx_frame` leave in each block of the ring.
use wcn36xx.Common.{
  ℕ, ◌≤◌, ◌<◌, ◌≡◌, ◌≢◌, refl, sym, ap, ◌∙◌, inl, inr, ==_iff, Bool, Bool-cases, ◌==◌, Option,
  length-set, get_or-set_self, get_or-set_ne, arith,
}
use wcn36xx.Dxe.State.{Skb, Block, Channel, no_block, block_at, next, is_some, update}
use wcn36xx.Dxe.Tx.{size, with_bd, with_skb, with_desc, put_bd, put_skb, put_desc}

abbrev pub skb_at : Channel → ℕ → Option Skb
skb_at ch i = (block_at ch i).skb

abbrev pub bd_at : Channel → ℕ → Bool
bd_at ch i = is_some (block_at ch i).bd_cpu_addr

-- What a write to one block does to what is read.
pub update_self : (ch : Channel) (i : ℕ) (b : Block) → i < size ch → block_at (update i b ch) i ≡ b
unfolding update size
update_self ch i b lt = get_or-set_self ch.blocks i b no_block lt

pub update_ne :
    (ch : Channel) (i j : ℕ) (b : Block) → i ≢ j → block_at (update i b ch) j ≡ block_at ch j
unfolding update
update_ne ch i j b ne = get_or-set_ne ch.blocks i j b no_block ne

pub size-update : (ch : Channel) (i : ℕ) (b : Block) → size (update i b ch) ≡ size ch
unfolding update size
size-update ch i b = length-set ch.blocks i b

-- The channel after a frame was taken.
abbrev pub after_tx : Skb → Channel → Channel
after_tx frame ch =
    let ctl = next (size ch) ch.head in put_desc ctl frame (put_skb ctl frame (put_bd ch))

module _ (frame : Skb) (ch : Channel) where
  abbrev pub ctl : ℕ
  ctl = next (size ch) ch.head

  abbrev bd_done : Channel
  bd_done = put_bd ch

  abbrev skb_done : Channel
  skb_done = put_skb ctl frame bd_done

  abbrev last_write : Block
  last_write = with_desc skb_done frame (block_at skb_done ctl)

  size-bd_done : size bd_done ≡ size ch
  unfolding put_bd
  size-bd_done = size-update ch ch.head (with_bd ch (block_at ch ch.head))

  size-skb_done : size skb_done ≡ size ch
  unfolding put_skb
  size-skb_done = size-update bd_done ctl (with_skb frame (block_at bd_done ctl)) ∙ size-bd_done

  pub size-after_tx : size (after_tx frame ch) ≡ size ch
  unfolding put_desc size
  size-after_tx = size-update skb_done ctl last_write ∙ size-skb_done

  module _ (two : 2 ≤ size ch) (lt : ch.head < size ch) where
    head-ne-ctl : ch.head ≢ ctl
    head-ne-ctl e = absurd (ground arith)

    ctl_inside : ctl < size ch
    ctl_inside = ground arith

    pub after_tx_head : block_at (after_tx frame ch) ch.head ≡ with_bd ch (block_at ch ch.head)
    unfolding put_desc put_skb put_bd
    after_tx_head =
        let apart : ctl ≢ ch.head = λ e. head-ne-ctl (sym e) in
        update_ne skb_done ctl ch.head last_write apart
        ∙ update_ne bd_done ctl ch.head (with_skb frame (block_at bd_done ctl)) apart
        ∙ update_self ch ch.head (with_bd ch (block_at ch ch.head)) lt

    pub after_tx-ctl :
        block_at (after_tx frame ch) ctl ≡ with_desc ch frame (with_skb frame (block_at ch ctl))
    unfolding put_desc put_skb put_bd update with_desc
    after_tx-ctl =
        update_self skb_done ctl last_write (omega (arith, ctl_inside, size-skb_done))
        ∙ ap (with_desc ch frame) (
            update_self bd_done ctl (with_skb frame (block_at bd_done ctl))
              (omega (arith, ctl_inside, size-bd_done))
            ∙ ap (with_skb frame)
                (update_ne ch ch.head ctl (with_bd ch (block_at ch ch.head)) head-ne-ctl))

    -- The block of the frame when the driver tests it for a BD.
    pub started_bd : bd_at (put_skb ctl frame (put_bd ch)) ctl ≡ bd_at ch ctl
    unfolding put_skb put_bd with_skb
    started_bd =
        ap (λ (b : Block). is_some b.bd_cpu_addr)
          (update_self bd_done ctl (with_skb frame (block_at bd_done ctl))
              (omega (arith, ctl_inside, size-bd_done))
            ∙ ap (with_skb frame)
                (update_ne ch ch.head ctl (with_bd ch (block_at ch ch.head)) head-ne-ctl))

  pub after_tx_other :
      (i : ℕ) → ch.head ≢ i → ctl ≢ i → block_at (after_tx frame ch) i ≡ block_at ch i
  unfolding put_desc put_skb put_bd
  after_tx_other i ne ne' =
      update_ne skb_done ctl i last_write ne'
      ∙ update_ne bd_done ctl i (with_skb frame (block_at bd_done ctl)) ne'
      ∙ update_ne ch ch.head i (with_bd ch (block_at ch ch.head)) ne

  pub head-after_tx : (after_tx frame ch).head ≡ next (size ch) ctl
  unfolding put_desc
  head-after_tx = ap (λ n. next n ctl) size-skb_done

  pub tail-after_tx : (after_tx frame ch).tail ≡ ch.tail
  unfolding put_desc put_skb put_bd update
  tail-after_tx = refl

  -- Where a place can be: one of the two written, or another.
  pub data Place (i : ℕ) : Type 0 where
    at_head : ch.head ≡ i → Place i
    at_ctl : ctl ≡ i → Place i
    elsewhere : ch.head ≢ i → ctl ≢ i → Place i

  pub place : (i : ℕ) → Place i
  place i = elim (Bool-cases (ch.head == i)) [
    | inl e ↦ at_head ((==_iff ch.head i).0 e)
    | inr e ↦ elim (Bool-cases (ctl == i)) [
      | inl f ↦ at_ctl ((==_iff ctl i).0 f)
      | inr f ↦ elsewhere (λ q. absurd (ground arith)) (λ q. absurd (ground arith))
    ]
  ]
