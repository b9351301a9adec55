-- ===== src/Dxe/Tx/Invariant.antt =====
-- The transmit ring stays well formed: BDs and frames take turns, and the blocks between the tail and
-- the head are those that hold frames.
use wcn36xx.Common.{
  ℕ, ◌+◌, ◌%◌, ◌≤◌, ◌<◌, ◌≡◌, ◌≢◌, ap, ◌∙◌, inl, inr, Bool, true, false, Bool-cases, leb, ◌==◌,
  Option, none, some, arith,
}
use wcn36xx.Dxe.State.{Skb, Block, Channel, block_at, next, valid, is_some}
use wcn36xx.Dxe.Cyclic.{dist, ahead}
use wcn36xx.Dxe.Tx.{size, with_bd, with_skb, with_desc}
use wcn36xx.Dxe.Tx.Write.{
  skb_at, bd_at, after_tx, size-after_tx, after_tx_head, after_tx-ctl, after_tx_other,
  head-after_tx, tail-after_tx, at_head, at_ctl, elsewhere, place,
}
use mathlib.Core.Path.{subst}

abbrev pub valid_at : Channel → ℕ → Bool
valid_at ch i = valid (block_at ch i).desc

-- `used` blocks, from the tail on, have been handed to the DMA engine and not yet been taken back.
pub record IsRing (ch : Channel) (used : ℕ) : Type 0 where
  pub even_size : size ch % 2 ≡ 0
  pub not_small : 2 ≤ size ch
  pub head_inside : ch.head < size ch
  pub tail_inside : ch.tail < size ch
  pub even_head : ch.head % 2 ≡ 0
  pub used_fits : used ≤ size ch
  pub span : ahead (size ch) ch.tail used ≡ ch.head
  -- every second block has a BD
  pub bds : (i : ℕ) → i < size ch → bd_at ch i ≡ (i % 2 == 0)
  pub no_skb : (i : ℕ) → i < size ch → i % 2 ≡ 0 → skb_at ch i ≡ none
  -- a used block of a frame has one, and the free blocks have neither a frame nor a valid descriptor
  pub busy :
      (i : ℕ)
      → i < size ch
      → i % 2 ≡ 1
      → dist (size ch) ch.tail i < used
      → is_some (skb_at ch i) ≡ true
  pub free : (i : ℕ) → i < size ch → used ≤ dist (size ch) ch.tail i → skb_at ch i ≡ none
  pub idle : (i : ℕ) → i < size ch → used ≤ dist (size ch) ch.tail i → valid_at ch i ≡ false

is_some-none : (o : Option Skb) → is_some o ≡ true → o ≢ none
is_some-none none e = λ q. absurd (ground arith)
is_some-none (some a) e = λ q. cc

-- A frame is taken only when two blocks are free.
pub room :
    (ch : Channel) (used : ℕ)
    → IsRing ch used
    → skb_at ch (next (size ch) ch.head) ≡ none
    → used + 2 ≤ size ch
room ch used r empty = elim (Bool-cases (leb (used + 2) (size ch))) [
  | inl e ↦ ground arith
  | inr e ↦
      let fits = r.used_fits in
      let two = r.not_small in
      let even = r.even_size in
      let lt = r.head_inside in
      let lt' = r.tail_inside in
      let even' = r.even_head in
      let where_head = r.span in
      let near : dist (size ch) ch.tail (next (size ch) ch.head) < used = ground arith in
      absurd (
        is_some-none (skb_at ch (next (size ch) ch.head))
          (r.busy (next (size ch) ch.head) (ground arith) (ground arith) near) empty)
]

module _ (frame : Skb) (ch : Channel) (used : ℕ) (r : IsRing ch used)
    (empty : skb_at ch (next (size ch) ch.head) ≡ none) where
  head_block : block_at (after_tx frame ch) ch.head ≡ with_bd ch (block_at ch ch.head)
  head_block = after_tx_head frame ch r.not_small r.head_inside

  ctl_block :
      block_at (after_tx frame ch) (next (size ch) ch.head)
      ≡ with_desc ch frame (with_skb frame (block_at ch (next (size ch) ch.head)))
  ctl_block = after_tx-ctl frame ch r.not_small r.head_inside

  bds_after : (i : ℕ) → i < size ch → bd_at (after_tx frame ch) i ≡ (i % 2 == 0)
  unfolding with_bd with_desc with_skb
  bds_after i lt = elim (place frame ch i) [
    | at_head e ↦
        subst (λ j. bd_at (after_tx frame ch) j ≡ (j % 2 == 0)) e
          (ap (λ (b : Block). is_some b.bd_cpu_addr) head_block ∙ r.bds ch.head r.head_inside)
    | at_ctl e ↦
        subst (λ j. bd_at (after_tx frame ch) j ≡ (j % 2 == 0)) e
          (ap (λ (b : Block). is_some b.bd_cpu_addr) ctl_block
            ∙ r.bds (next (size ch) ch.head) (omega (arith, e)))
    | elsewhere ne ne' ↦
        ap (λ (b : Block). is_some b.bd_cpu_addr) (after_tx_other frame ch i ne ne') ∙ r.bds i lt
  ]

  no_skb_after : (i : ℕ) → i < size ch → i % 2 ≡ 0 → skb_at (after_tx frame ch) i ≡ none
  unfolding with_bd
  no_skb_after i lt even = elim (place frame ch i) [
    | at_head e ↦
        subst (λ j. skb_at (after_tx frame ch) j ≡ none) e (ap (λ (b : Block). b.skb) head_block)
    | at_ctl e ↦
        let odd : next (size ch) ch.head % 2 ≡ 1 =
          ground (arith, r.even_size, r.even_head, r.head_inside) in
        absurd (ground (arith, e))
    | elsewhere ne ne' ↦
        ap (λ (b : Block). b.skb) (after_tx_other frame ch i ne ne') ∙ r.no_skb i lt even
  ]

  busy_after :
      (i : ℕ)
      → i < size ch
      → i % 2 ≡ 1
      → dist (size ch) ch.tail i < used + 2
      → is_some (skb_at (after_tx frame ch) i) ≡ true
  unfolding with_desc with_skb
  busy_after i lt odd d = elim (place frame ch i) [
    | at_head e ↦ absurd (omega (arith, r.even_head, e))
    | at_ctl e ↦
        subst (λ j. is_some (skb_at (after_tx frame ch) j) ≡ true) e
          (ap (λ (b : Block). is_some b.skb) ctl_block)
    | elsewhere ne ne' ↦
        let near : dist (size ch) ch.tail i < used =
          ground (arith, r.span, r.tail_inside, r.head_inside, r.used_fits, room ch used r empty) in
        ap (λ (b : Block). is_some b.skb) (after_tx_other frame ch i ne ne') ∙ r.busy i lt odd near
  ]

  free_after :
      (i : ℕ)
      → i < size ch
      → used + 2 ≤ dist (size ch) ch.tail i
      → block_at (after_tx frame ch) i ≡ block_at ch i
  free_after i lt d =
      let fits = room ch used r empty in
      let apart : ch.head ≢ i =
        λ e. absurd (ground (arith, r.span, r.tail_inside, r.head_inside)) in
      let apart' : next (size ch) ch.head ≢ i =
        λ e. absurd (ground (arith, r.span, r.tail_inside, r.head_inside)) in
      after_tx_other frame ch i apart apart'

  pub after_tx-IsRing : IsRing (after_tx frame ch) (used + 2)
  after_tx-IsRing =
      let n : size (after_tx frame ch) ≡ size ch = size-after_tx frame ch in
      let h = head-after_tx frame ch in
      let t = tail-after_tx frame ch in
      let fits = room ch used r empty in
      record {
        even_size = ap (λ n. n % 2) n ∙ r.even_size;
        not_small = omega (arith, n, r.not_small);
        head_inside = ground (arith, n, h, r.head_inside, r.not_small);
        tail_inside = ground (arith, n, t, r.tail_inside);
        even_head = ground (arith, h, r.even_head, r.even_size, r.head_inside);
        used_fits = omega (arith, n, fits);
        span = ground (arith, n, h, t, fits, r.span, r.tail_inside, r.head_inside);
        bds = λ i lt. bds_after i (omega (arith, n));
        no_skb = λ i lt even. no_skb_after i (omega (arith, n)) even;
        busy = λ i lt odd d. busy_after i (omega (arith, n)) odd (ground (arith, n, t));
        free = λ i lt d.
            ap (λ (b : Block). b.skb) (free_after i (omega (arith, n)) (ground (arith, n, t)))
            ∙ r.free i (omega (arith, n)) (ground (arith, n, t));
        idle = λ i lt d.
            ap (λ (b : Block). valid b.desc)
              (free_after i (omega (arith, n)) (ground (arith, n, t)))
            ∙ r.idle i (omega (arith, n)) (ground (arith, n, t));
      }
