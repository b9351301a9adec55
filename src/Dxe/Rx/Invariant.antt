-- ===== src/Dxe/Rx/Invariant.antt =====
-- The receive ring: every block has a buffer that its descriptor points to, and the blocks that the
-- DMA engine has filled are those from the head on.
use wcn36xx.Common.{
  ℕ, ◌≤◌, ◌<◌, ◌≡◌, ◌≢◌, refl, sym, ap, ◌∙◌, Bool, true, false, not, ltb, ◌==◌, Option, none, some,
  List, [], ◌∷◌, ◌++◌, append-nil, ◌%◌, arith,
}
use mathlib.Core.Path.{subst}
use mathlib.Core.Bool.{true≢false}
use wcn36xx.Dxe.State.{
  Skb, Block, Channel, ChType, tx_l, tx_h, rx_l, rx_h, Event, stop_queues, wake_queues, unmap,
  free_txskb, smsm_change_state, write_register, unmap_from_device, deliver, kfree_skb, block_at,
  valid, update,
}
use wcn36xx.Dxe.Cyclic.{dist, cell}
use wcn36xx.Dxe.Tx.{size}
use wcn36xx.Dxe.Tx.Write.{skb_at, update_self, update_ne, size-update}
use wcn36xx.Dxe.Tx.Invariant.{valid_at}
use wcn36xx.Dxe.Rx.{Rx, with_buffer, with_ctrl, fill_from, fill_skb, rearm, rx_one}

abbrev pub receives : ChType → Bool
receives tx_l = false
receives tx_h = false
receives rx_l = true
receives rx_h = true

-- The frames that were handed up, oldest first.
unfoldable pub delivered : List Event → List Skb
delivered [] = []
delivered (deliver o ∷ es) = cell o ++ delivered es
delivered (e ∷ es) = delivered es

pub delivered-append : (es fs : List Event) → delivered (es ++ fs) ≡ delivered es ++ delivered fs
unfolding delivered
delivered-append [] fs = refl
delivered-append (deliver none ∷ es) fs = delivered-append es fs
delivered-append (deliver (some f) ∷ es) fs = ap (λ r. f ∷ r) (delivered-append es fs)
delivered-append (stop_queues ∷ es) fs = delivered-append es fs
delivered-append (wake_queues ∷ es) fs = delivered-append es fs
delivered-append (unmap a f ∷ es) fs = delivered-append es fs
delivered-append (free_txskb f ∷ es) fs = delivered-append es fs
delivered-append (smsm_change_state a b ∷ es) fs = delivered-append es fs
delivered-append (write_register a b ∷ es) fs = delivered-append es fs
delivered-append (unmap_from_device a ∷ es) fs = delivered-append es fs
delivered-append (kfree_skb o ∷ es) fs = delivered-append es fs

-- A block whose descriptor points to the buffer that it has.
abbrev pub Mapped : Block → Type 0
Mapped b = (f : Skb) × (b.skb ≡ some f) × (b.desc.dst_addr_l ≡ f.dma)

-- `waiting` blocks, from the head on, hold a frame that was not yet handed up.
pub record IsRxRing (ch : Channel) (waiting : ℕ) : Type 0 where
  pub kind : receives ch.ch_type ≡ true
  pub head_inside : ch.head < size ch
  pub waiting_fits : waiting ≤ size ch
  pub mapped : (i : ℕ) → i < size ch → Mapped (block_at ch i)
  pub filled : (i : ℕ) → i < size ch → valid_at ch i ≡ not (ltb (dist (size ch) ch.head i) waiting)

-- The channel with the head at `i`: where the walk is.
abbrev pub from : ℕ → Channel → Channel
from i ch = record ch { head = i }

-- A block after a call of `alloc_skb`, and the outcomes that are left, by those that are to come.
unfoldable pub refill : List (Option Skb) → Block → Block
unfolding with_buffer
refill [] b = b
refill (none ∷ rest) b = b
refill (some f ∷ rest) b = with_buffer f b

unfoldable pub rest_of : List (Option Skb) → List (Option Skb)
rest_of [] = []
rest_of (o ∷ rest) = rest

refill-Mapped : (os : List (Option Skb)) (b : Block) → Mapped b → Mapped (refill os b)
unfolding refill
refill-Mapped [] b m = m
refill-Mapped (none ∷ rest) b m = m
refill-Mapped (some f ∷ rest) b m = (f, refl, refl)

-- The channel `new` differs from `old` by the block `b` at `i`.
record Written (i : ℕ) (b : Block) (old new : Channel) : Type 0 where
  here : block_at new i ≡ b
  elsewhere : (j : ℕ) → i ≢ j → block_at new j ≡ block_at old j
  same_size : size new ≡ size old
  same_type : new.ch_type ≡ old.ch_type
  same_head : new.head ≡ old.head

update-Written : (i : ℕ) (b : Block) (ch : Channel) → i < size ch → Written i b ch (update i b ch)
unfolding update
update-Written i b ch lt = record {
  here = update_self ch i b lt;
  elsewhere = λ j ne. update_ne ch i j b ne;
  same_size = size-update ch i b;
  same_type = refl;
  same_head = refl;
}

fill_from-Written :
    (os : List (Option Skb)) (i : ℕ) (s : Rx)
    → i < size s.ch
    → Written i (refill os (block_at s.ch i)) s.ch (fill_from os i s).1.ch
unfolding fill_from refill
fill_from-Written [] i s lt = record {
  here = refl;
  elsewhere = λ j ne. refl;
  same_size = refl;
  same_type = refl;
  same_head = refl;
}
fill_from-Written (none ∷ rest) i s lt = record {
  here = refl;
  elsewhere = λ j ne. refl;
  same_size = refl;
  same_type = refl;
  same_head = refl;
}
fill_from-Written (some f ∷ rest) i s lt =
    update-Written i (with_buffer f (block_at s.ch i)) s.ch lt

fill_from_rest :
    (os : List (Option Skb)) (i : ℕ) (s : Rx)
    → os ≡ s.skbs
    → ((fill_from os i s).1.skbs ≡ rest_of os) × ((fill_from os i s).1.calls ≡ s.calls)
unfolding fill_from rest_of
fill_from_rest [] i s e = (sym e, refl)
fill_from_rest (none ∷ rest) i s e = (refl, refl)
fill_from_rest (some f ∷ rest) i s e = (refl, refl)

-- The descriptor of a receive channel is valid again; the calls made hand nothing up.
record Armed (t : ChType) (i : ℕ) (s armed : Rx) : Type 0 where
  ctrl : ℕ
  is_valid : (ctrl % 2 == 1) ≡ true
  block : Written i (with_ctrl ctrl (block_at s.ch i)) s.ch armed.ch
  same_skbs : armed.skbs ≡ s.skbs
  nothing_up : delivered armed.calls ≡ delivered s.calls

quiet : (a b : ℕ) (es : List Event) → delivered (es ++ (write_register a b ∷ [])) ≡ delivered es
unfolding delivered
quiet a b es = delivered-append es (write_register a b ∷ []) ∙ append-nil (delivered es)

rearm-Armed :
    (t : ChType) (i : ℕ) (s : Rx) → receives t ≡ true → i < size s.ch → Armed t i s (rearm t i s)
unfolding rearm
rearm-Armed tx_l i s k lt = absurd (true≢false (sym k))
rearm-Armed tx_h i s k lt = absurd (true≢false (sym k))
rearm-Armed rx_l i s k lt = record {
  ctrl = 0x12ad2f;
  is_valid = refl;
  block = update-Written i (with_ctrl 0x12ad2f (block_at s.ch i)) s.ch lt;
  same_skbs = refl;
  nothing_up = quiet 0x202004 2 s.calls;
}
rearm-Armed rx_h i s k lt = record {
  ctrl = 0x12d12f;
  is_valid = refl;
  block = update-Written i (with_ctrl 0x12d12f (block_at s.ch i)) s.ch lt;
  same_skbs = refl;
  nothing_up = quiet 0x202004 8 s.calls;
}

-- One round: the frame goes up, and the block is filled again where there is memory.
pub record Round (i : ℕ) (s after : Rx) : Type 0 where
  pub up : delivered after.calls ≡ delivered s.calls ++ cell (skb_at s.ch i)
  pub refilled : skb_at after.ch i ≡ (refill s.skbs (block_at s.ch i)).skb
  pub rest : after.skbs ≡ rest_of s.skbs
  pub is_valid : valid_at after.ch i ≡ true
  pub still_mapped : Mapped (block_at s.ch i) → Mapped (block_at after.ch i)
  pub elsewhere : (j : ℕ) → i ≢ j → block_at after.ch j ≡ block_at s.ch j
  pub same_size : size after.ch ≡ size s.ch
  pub same_type : after.ch.ch_type ≡ s.ch.ch_type
  pub same_head : after.ch.head ≡ s.ch.head

pub rx_one-Round :
    (i : ℕ) (s : Rx) → receives s.ch.ch_type ≡ true → i < size s.ch → Round i s (rx_one i s)
unfolding rx_one fill_skb delivered with_ctrl size
rx_one-Round i s k lt =
    let b = block_at s.ch i in
    let filled = (fill_from s.skbs i s).1 in
    let w = fill_from-Written s.skbs i s lt in
    let (rest, same_calls) = fill_from_rest s.skbs i s refl in
    let a = rearm-Armed s.ch.ch_type i filled k (omega (arith, w.same_size)) in
    let last : block_at (rx_one i s).ch i ≡ with_ctrl a.ctrl (refill s.skbs b) =
      a.block.here ∙ ap (with_ctrl a.ctrl) w.here in
    record {
      up =
          delivered-append (rearm s.ch.ch_type i filled).calls
            (unmap_from_device b.desc.dst_addr_l ∷ deliver b.skb ∷ [])
          ∙ rw (a.nothing_up, same_calls, append-nil (cell b.skb)) refl;
      refilled = ap (λ (c : Block). c.skb) last;
      rest = a.same_skbs ∙ rest;
      is_valid = ap (λ (c : Block). valid c.desc) last ∙ a.is_valid;
      still_mapped = λ m. subst Mapped (sym last) (refill-Mapped s.skbs b m);
      elsewhere = λ j ne. a.block.elsewhere j ne ∙ w.elsewhere j ne;
      same_size = a.block.same_size ∙ w.same_size;
      same_type = a.block.same_type ∙ w.same_type;
      same_head = a.block.same_head ∙ w.same_head;
    }
