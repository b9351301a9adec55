-- ===== src/Dxe/Setup/Buffers.antt =====
-- The first buffers of a receive channel, and the receive ring that they make.
use wcn36xx.Common.{
  ℕ, suc, ◌+◌, ◌*◌, ◌≤◌, ◌<◌, ◌≡◌, refl, sym, ap, ◌∙◌, inl, inr, Bool, true, not, ltb, Bool-cases,
  ==_iff, ◌==◌, Option, some, List, [], ◌∷◌, ◌++◌, length, arith,
}
use mathlib.Core.List.{map}
use mathlib.Core.Path.{subst}
use wcn36xx.Dxe.State.{
  Skb, Block, Channel, ChType, tx_l, tx_h, rx_l, rx_h, block_at, next, valid, update,
}
use wcn36xx.Dxe.Cyclic.{dist}
use wcn36xx.Dxe.Tx.{size}
use wcn36xx.Dxe.Init.{desc_size, first_desc, descs_loop, init_descs}
use wcn36xx.Dxe.Rx.{Rx, with_buffer, fill_from, fill_skb, alloc_loop, ch_alloc_skb}
use wcn36xx.Dxe.Rx.Invariant.{receives, Mapped, IsRxRing}
use wcn36xx.Dxe.Setup.{with_buffers}
use wcn36xx.Dxe.Setup.Placed.{
  SameShape, SameShape-trans, update-SameShape, update_at, descs_loop-Placed,
}

-- What a buffer leaves alone.
abbrev pub armed : Block → Bool × ℕ
armed b = (valid b.desc, b.desc_phy_addr)

abbrev pub armed_at : Channel → ℕ → Bool × ℕ
armed_at ch j = armed (block_at ch j)

-- The blocks from `i` on have been given buffers.
pub record Filled (i : ℕ) (s t : Rx) (left : List (Option Skb)) : Type 0 where
  pub shape : SameShape s.ch t.ch
  pub skbs_left : t.skbs ≡ left
  pub same_calls : t.calls ≡ s.calls
  pub before : (j : ℕ) → j < i → block_at t.ch j ≡ block_at s.ch j
  pub after : (j : ℕ) → i ≤ j → j < size s.ch → Mapped (block_at t.ch j)
  pub same_armed : (j : ℕ) → armed_at t.ch j ≡ armed_at s.ch j

one_filled :
    (i : ℕ) (f : Skb) (s : Rx) (os : List (Option Skb))
    → s.skbs ≡ some f ∷ os
    → (fill_skb i s).1
      ≡ record s { skbs = os; ch = update i (with_buffer f (block_at s.ch i)) s.ch }
unfolding fill_skb fill_from
one_filled i f s os e = rw (e, fill_from) refl

with_buffer-Mapped : (f : Skb) (b : Block) → Mapped (with_buffer f b)
unfolding with_buffer
with_buffer-Mapped f b = (f, refl, refl)

written_armed :
    (f : Skb) (i j : ℕ) (ch : Channel)
    → i < size ch
    → armed_at (update i (with_buffer f (block_at ch i)) ch) j ≡ armed_at ch j
unfolding with_buffer
written_armed f i j ch lt =
    let b = with_buffer f (block_at ch i) in
    elim (Bool-cases (i == j)) [
      | inl e ↦
          let here = (==_iff i j).0 e in
          (update_at armed i j b ch lt).0 here ∙ ap (armed_at ch) here
      | inr e ↦ (update_at armed i j b ch lt).1 (λ q. absurd (ground arith))
    ]

pub alloc_loop-Filled :
    (fs : List Skb) (i cur : ℕ) (s : Rx) (left : List (Option Skb))
    → s.skbs ≡ map some fs ++ left
    → i + length fs ≡ size s.ch
    → (1 ≤ length fs → cur ≡ i)
    → Filled i s (alloc_loop (length fs) cur s) left
unfolding alloc_loop
alloc_loop-Filled [] i cur s left given e place = record {
  shape = record { same_size = refl; same_head = refl; same_type = refl };
  skbs_left = given;
  same_calls = refl;
  before = λ j lt. refl;
  after = λ j le lt. absurd (omega arith);
  same_armed = λ j. refl;
}
alloc_loop-Filled (f ∷ fs) i cur s left given e place =
    let here : cur ≡ i = place (omega arith) in
    let i_lt : i < size s.ch = omega arith in
    let b = with_buffer f (block_at s.ch i) in
    let ch' = update i b s.ch in
    let s' : Rx = record s { skbs = map some fs ++ left; ch = ch' } in
    let step : (fill_skb i s).1 ≡ s' = one_filled i f s (map some fs ++ left) given in
    let shape : SameShape s.ch ch' = update-SameShape i b s.ch in
    let rest =
      alloc_loop-Filled fs (suc i) (next (size s.ch) i) s' left refl
        (omega (arith, shape.same_size)) (λ one. ground arith) in
    let done = alloc_loop (length fs) (next (size s.ch) i) s' in
    let m : Filled i s done left = record {
      shape = SameShape-trans s.ch ch' done.ch shape rest.shape;
      skbs_left = rest.skbs_left;
      same_calls = rest.same_calls;
      before = λ j lt.
          rest.before j (omega arith)
          ∙ (update_at (λ c. c) i j b s.ch i_lt).1 (λ q. absurd (omega arith));
      after = λ j le lt. elim (Bool-cases (i == j)) [
        | inl q ↦
            subst (λ (k : ℕ). Mapped (block_at done.ch k)) ((==_iff i j).0 q)
              (subst Mapped
                (sym (rest.before i (omega arith) ∙ (update_at (λ c. c) i i b s.ch i_lt).0 refl))
                (with_buffer-Mapped f (block_at s.ch i)))
        | inr q ↦ rest.after j (ground arith) (omega (arith, shape.same_size))
      ];
      same_armed = λ j. rest.same_armed j ∙ written_armed f i j s.ch i_lt;
    } in
    rw here (
      subst (λ (r : Rx). Filled i s (alloc_loop (length fs) (next (size s.ch) i) r) left) (sym step)
        m)

abbrev pub Untouched : Channel → Type 0
Untouched ch = (1 ≤ size ch) × (ch.head ≡ 0)

-- A receive channel with its head at the first block, with descriptors and with memory for a buffer
-- in every block, is a receive ring without waiting frames, its descriptors one after another.
pub record RxReady (dma_addr : ℕ) (ch : Channel) (s : Rx) (left : List (Option Skb)) : Type 0 where
  pub ring : IsRxRing s.ch 0
  pub skbs_left : s.skbs ≡ left
  pub no_calls : s.calls ≡ []
  pub same_head : s.ch.head ≡ ch.head
  pub first_addr : (block_at s.ch s.ch.head).desc_phy_addr ≡ dma_addr

receives-valid : (t : ChType) → receives t ≡ true → valid (first_desc t) ≡ true
unfolding first_desc
receives-valid tx_l e = cc
receives-valid tx_h e = cc
receives-valid rx_l e = refl
receives-valid rx_h e = refl

none_waiting : (d : ℕ) → true ≡ not (ltb d 0)
none_waiting d = ground arith

pub with_buffers-RxReady :
    (dma_addr : ℕ) (fs : List Skb) (left : List (Option Skb)) (ch : Channel)
    → receives ch.ch_type ≡ true
    → 1 ≤ size ch
    → ch.head ≡ 0
    → length fs ≡ size ch
    → RxReady dma_addr ch (with_buffers (some dma_addr) (map some fs ++ left) ch) left
unfolding with_buffers init_descs ch_alloc_skb
with_buffers-RxReady dma_addr fs left ch rx one h n =
    let mid = descs_loop dma_addr (size ch) 0 ch.head ch.head ch in
    let p =
      descs_loop-Placed dma_addr (size ch) 0 ch.head ch.head ch (omega arith) (λ _. h)
        (omega arith) in
    let s : Rx = record { ch = mid; skbs = map some fs ++ left; calls = [] } in
    let count : length fs ≡ size mid = n ∙ sym p.shape.same_size in
    let q =
      alloc_loop-Filled fs 0 mid.head s left refl (omega arith) (λ _. p.shape.same_head ∙ h) in
    let done = (alloc_loop (length fs) mid.head s) in
    let shape : SameShape ch done.ch = SameShape-trans ch mid done.ch p.shape q.shape in
    let armed : (j : ℕ) → j < size ch → armed_at done.ch j ≡ (true, dma_addr + j * desc_size) =
      λ j lt.
        q.same_armed j
        ∙ ap (λ (v : Option Skb × Bool × ℕ). (v.1, v.2)) (p.after j (omega arith) lt)
        ∙ ap (λ (b : Bool). (b, dma_addr + j * desc_size)) (receives-valid ch.ch_type rx) in
    let head_0 : done.ch.head ≡ 0 = shape.same_head ∙ h in
    let r : RxReady dma_addr ch done left = record {
      ring = record {
        kind = ap receives shape.same_type ∙ rx;
        head_inside = omega (arith, head_0, shape.same_size);
        waiting_fits = omega arith;
        mapped = λ i lt. q.after i (omega arith) (omega (arith, q.shape.same_size));
        filled = λ i lt.
            ap (λ (v : Bool × ℕ). v.0) (armed i (omega (arith, shape.same_size)))
            ∙ none_waiting (dist (size done.ch) done.ch.head i);
      };
      skbs_left = q.skbs_left;
      no_calls = q.same_calls;
      same_head = shape.same_head;
      first_addr = rw head_0 (ap (λ (v : Bool × ℕ). v.1) (armed 0 (omega arith)) ∙ omega arith);
    } in
    rw (sym count) r
