-- ===== src/Dxe/Setup/Ready.antt =====
-- The DMA engine that `wcn36xx_dxe_init` leaves: the rings that sending, receiving and the interrupt
-- handlers rely on, and the order of the register writes.
use wcn36xx.Common.{
  ℕ, ◌≡◌, refl, sym, ap, ◌∙◌, false, bit_or, Option, some, List, [], ◌∷◌, ◌++◌, append_assoc,
  length, Ret,
}
use mathlib.Core.List.{map}
use mathlib.Core.Path.{subst}
use wcn36xx.Dxe.State.{Skb, Channel}
use wcn36xx.Dxe.Tx.{size}
use wcn36xx.Dxe.Init.Ring.{set_up}
use wcn36xx.Dxe.Rx.{Rx}
use wcn36xx.Dxe.Irq.{TxSide, RxSide, AreRings, AreRxRings}
use wcn36xx.Dxe.Setup
use wcn36xx.Dxe.Setup.{
  Call, request_irq, enable_irq_wake, free_irq, tx_irq, rx_irq, Engine, first_of, others,
  first_read, log, write, head_block, init_tx_l, init_tx_h, with_buffers, rx_writes, init_rx_l,
  init_rx_h, request_rx_irq, request_tx_irq, request_irqs, reset, dxe_init,
}
use wcn36xx.Dxe.Setup.Buffers.{RxReady, with_buffers-RxReady}
use wcn36xx.Dxe.Setup.Fresh.{set_up-first_addr, FreshTx-IsRing, FreshTx, FreshRx}
use wcn36xx.Dxe.Setup.Writes.{reset_writes, tx_writes, request_irqs_lem, startup, irq_outcome}

abbrev pub tx_side : Engine → TxSide
tx_side e = record { low = e.tx_l; high = e.tx_h; queues_stopped = false; calls = [] }

abbrev pub rx_side : Engine → RxSide
rx_side e = record { low = e.rx_l; high = e.rx_h; skbs = e.skbs; calls = [] }

pub record Started (e : Engine) (a b c d : ℕ) (r : Option (Ret × Engine)) : Type 0 where
  pub after : Engine
  pub returns : r ≡ some ((irq_outcome (first_of e.irqs) (first_of (others e.irqs))).0, after)
  pub tx : AreRings (tx_side after)
  pub rx : AreRxRings (rx_side after)
  pub written :
      after.calls
      ≡ e.calls
        ++ (startup e.is_3680 e.reads a b c d
              (head_block after.rx_l).desc.phy_next_l
              (head_block after.rx_h).desc.phy_next_l
            ++ (irq_outcome (first_of e.irqs) (first_of (others e.irqs))).1)

-- The device before the start, with memory for what is asked of it: descriptors at `a`, `b`, `c` and
-- `d`, and the buffers `fs` and `gs`.
module _ (e : Engine) (a b c d : ℕ) (more : List (Option ℕ)) (fs gs : List Skb)
    (left : List (Option Skb)) where
  abbrev pub given : Engine
  given = record e {
    coherent = some a ∷ some b ∷ some c ∷ some d ∷ more;
    skbs = map some fs ++ (map some gs ++ left);
  }

  abbrev tx_low : Channel
  tx_low = set_up a e.data_pool e.tx_l

  abbrev tx_high : Channel
  tx_high = set_up b e.mgmt_pool e.tx_h

  abbrev low : Rx
  low = with_buffers (some c) (map some fs ++ (map some gs ++ left)) e.rx_l

  abbrev high : Rx
  high = with_buffers (some d) low.skbs e.rx_h

  -- The device when the interrupt lines are asked for.
  abbrev set_up_with : List Call → Engine
  set_up_with calls = record e {
    tx_l = tx_low;
    tx_h = tx_high;
    rx_l = low.ch;
    rx_h = high.ch;
    coherent = more;
    skbs = high.skbs;
    reads = others (others (others (others (others (others e.reads)))));
    calls = calls;
  }

  -- The writes, grouped as the code makes them.
  abbrev grouped : List Call
  grouped =
      ((((((((e.calls ++ reset_writes e.is_3680)
                    ++ tx_writes 0x20241C 0x202414 (head_block tx_low).desc_phy_addr)
                  ++ write 0x202018 (bit_or (first_read (others e.reads)) 1) ∷ [])
                ++ tx_writes 0x20251C 0x202514 (head_block tx_high).desc_phy_addr)
              ++ write 0x202018 (bit_or (first_read (others (others (others e.reads)))) 16) ∷ [])
            ++ rx_writes 0x440 0xB 0x847EAD2F low.ch)
          ++ write 0x202018 (bit_or (first_read (others (others (others (others e.reads))))) 2)
            ∷ [])
        ++ rx_writes 0x4C0 0x4 0x84FED12F high.ch)
      ++ write 0x202018 (bit_or (first_read (others (others (others (others (others e.reads)))))) 8)
        ∷ []

  before_irqs : dxe_init given ≡ some (request_irqs (set_up_with grouped))
  unfolding dxe_init init_tx_l init_tx_h init_rx_l init_rx_h reset Setup.then_engine
      Setup.enable_ch_int Setup.drop_read
  before_irqs = refl

  flattened :
      grouped
      ≡ e.calls
        ++ startup e.is_3680 e.reads
            (head_block tx_low).desc_phy_addr
            (head_block tx_high).desc_phy_addr
            (head_block low.ch).desc_phy_addr
            (head_block high.ch).desc_phy_addr
            (head_block low.ch).desc.phy_next_l
            (head_block high.ch).desc.phy_next_l
  flattened = simp append_assoc

  -- With memory for the descriptors of all channels and for the buffers of the receive channels, and
  -- with fresh channels (no frames and no valid descriptors, head and tail at the first block; a
  -- transmit channel has an even number of blocks, at least two): the call returns 0 when both
  -- interrupt lines are granted and otherwise the error of the one that is not; the transmit channels
  -- are well-formed rings and the receive channels receive rings. It makes the register writes of the
  -- start and then asks for the lines, in this order and with nothing else; the first line is given
  -- back when the second is refused. The destination register of a receive channel gets the address that
  -- its first descriptor is linked to, not that of its buffer.
  pub dxe_init-Started :
      FreshTx e.tx_l
      → FreshTx e.tx_h
      → FreshRx e.rx_l
      → FreshRx e.rx_h
      → length fs ≡ size e.rx_l
      → length gs ≡ size e.rx_h
      → Started e a b c d (dxe_init given)
  dxe_init-Started tl th rl rh n m =
      let r_low : RxReady c e.rx_l low (map some gs ++ left) =
        with_buffers-RxReady c fs (map some gs ++ left) e.rx_l rl.kind rl.not_empty rl.head_0 n in
      let r_high : RxReady d e.rx_h high left =
        subst (λ os. RxReady d e.rx_h (with_buffers (some d) os e.rx_h) left) (sym r_low.skbs_left)
          (with_buffers-RxReady d gs left e.rx_h rh.kind rh.not_empty rh.head_0 m) in
      let (irqs, asked) = request_irqs_lem (set_up_with grouped) in
      let out = irq_outcome (first_of e.irqs) (first_of (others e.irqs)) in
      record {
        after = record (set_up_with (grouped ++ out.1)) { irqs = irqs };
        returns = before_irqs ∙ ap some asked;
        tx = record {
          low_used = 0;
          high_used = 0;
          low_ring = FreshTx-IsRing a e.data_pool e.tx_l tl;
          high_ring = FreshTx-IsRing b e.mgmt_pool e.tx_h th;
        };
        rx = record {
          low_waiting = 0;
          high_waiting = 0;
          low_ring = r_low.ring;
          high_ring = r_high.ring;
        };
        written =
            ap (λ cs. cs ++ out.1) flattened
            ∙ append_assoc e.calls _ out.1
            ∙ rw
                (
                  set_up-first_addr a e.data_pool e.tx_l tl,
                  set_up-first_addr b e.mgmt_pool e.tx_h th,
                  r_low.first_addr,
                  r_high.first_addr,
                )
                refl;
      }
