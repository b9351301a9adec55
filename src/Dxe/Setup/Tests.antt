-- ===== src/Dxe/Setup/Tests.antt =====
-- Starting the DMA engine with rings of two and four blocks.
use wcn36xx.Common.{
  ℕ, zero, suc, ◌<◌, ◌≡◌, refl, true, false, List, none, some, [], ◌∷◌, einval, arith,
}
use wcn36xx.Dxe.State.{Skb, Channel, ChType, tx_l, tx_h, rx_l, rx_h, no_block}
use wcn36xx.Dxe.Tx.{size}
use wcn36xx.Dxe.Tx.Write.{skb_at}
use wcn36xx.Dxe.Tx.Invariant.{valid_at}
use wcn36xx.Dxe.Rx.Invariant.{receives}
use wcn36xx.Dxe.Setup.{Engine, dxe_init}
use wcn36xx.Dxe.Setup.Ready.{Started, given, dxe_init-Started}
use wcn36xx.Dxe.Setup.Fresh.{FreshTx, FreshRx}

abbrev blank : ChType → Channel
blank t = record {
  ch_type = t;
  blocks = no_block ∷ no_block ∷ [];
  head = 0;
  tail = 0;
  dxe_wq = 0;
  ctrl_bd = 0;
  ctrl_skb = 0;
  reg_ctrl = 0;
  def_ctrl = 0;
}

abbrev buffer : ℕ → Skb
buffer n = record { id = n; len = 0; dma = n; wants_status = false }

-- The second interrupt line is refused.
abbrev engine : Engine
engine = record {
  tx_l = blank tx_l;
  tx_h = blank tx_h;
  rx_l = blank rx_l;
  rx_h = blank rx_h;
  data_pool = record { chunk_size = 144; virt_addr = 4096; phy_addr = 64 };
  mgmt_pool = record { chunk_size = 144; virt_addr = 8192; phy_addr = 128 };
  is_3680 = true;
  tx_ack_skb = some (buffer 9);
  coherent = [];
  skbs = [];
  reads = 0 ∷ 0 ∷ 1 ∷ 1 ∷ 17 ∷ 19 ∷ [];
  irqs = none ∷ some einval ∷ [];
  calls = [];
}

blank_empty :
    (t : ChType) (j : ℕ) → j < 2 → (skb_at (blank t) j ≡ none) × (valid_at (blank t) j ≡ false)
blank_empty t zero lt = (refl, refl)
blank_empty t (suc zero) lt = (refl, refl)
blank_empty t (suc (suc j)) lt = absurd (omega arith)

blank-FreshTx : (t : ChType) → receives t ≡ false → FreshTx (blank t)
unfolding size
blank-FreshTx t e = record {
  sends = e;
  even_size = refl;
  not_small = omega arith;
  head_0 = refl;
  tail_0 = refl;
  empty = blank_empty t;
}

blank-FreshRx : (t : ChType) → receives t ≡ true → FreshRx (blank t)
unfolding size
blank-FreshRx t e = record { kind = e; not_empty = omega arith; head_0 = refl }

abbrev buffers : List Skb
buffers = buffer 11 ∷ buffer 12 ∷ []

dxe_init-Started_example :
    Started engine 1024 2048 3072 5120
      (dxe_init (given engine 1024 2048 3072 5120 [] buffers buffers []))
unfolding size
dxe_init-Started_example =
    dxe_init-Started engine 1024 2048 3072 5120 [] buffers buffers [] (blank-FreshTx tx_l refl)
      (blank-FreshTx tx_h refl) (blank-FreshRx rx_l refl) (blank-FreshRx rx_h refl) refl refl

-- Without descriptors for a receive channel a null pointer is followed.
no_descriptors : dxe_init engine ≡ none
unfolding dxe_init
no_descriptors = refl
