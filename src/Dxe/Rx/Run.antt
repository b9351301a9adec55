-- ===== src/Dxe/Rx/Run.antt =====
-- The receive ring at work: the DMA engine fills one block after the other, and interrupts come at any
-- time, with or without memory for new buffers.
use wcn36xx.Common.{
  ℕ, suc, ◌+◌, ◌%◌, ◌<◌, ◌≡◌, ◌≢◌, ◌⊎◌, refl, sym, ap, ◌∙◌, inl, inr, true, not, Bool-cases, ==_iff,
  ltb, ◌==◌, some, List, [], ◌++◌, append_assoc, append-nil, arith,
}
use mathlib.Core.Path.{subst}
use mathlib.Core.Option.{some-injective}
use wcn36xx.Dxe.State.{Skb, Block, Channel, block_at, next, valid, update}
use wcn36xx.Dxe.Cyclic.{dist, ahead, cell, collect, collect_ext, collect_split}
use wcn36xx.Dxe.Tx.{size}
use wcn36xx.Dxe.Tx.Write.{skb_at, update_self, update_ne, size-update}
use wcn36xx.Dxe.Tx.Invariant.{valid_at}
use wcn36xx.Dxe.Rx.{Rx, with_ctrl, rx_handle_packets}
use wcn36xx.Dxe.Rx.Invariant.{delivered, Mapped, IsRxRing}
use wcn36xx.Dxe.Rx.Walk.{waiting_frames, rx_handle_packets-HandedUp}

-- The ring and the place where the engine is.
pub record Receiver : Type 0 where
  pub rx : Rx
  pub engine : ℕ

-- The engine has written a frame to the buffer of its block: it clears the valid bit and moves on.
unfoldable pub engine_done : ℕ → Receiver → Receiver
engine_done ctrl s =
    let b = block_at s.rx.ch s.engine in
    record {
      rx = record s.rx { ch = update s.engine (with_ctrl ctrl b) s.rx.ch };
      engine = next (size s.rx.ch) s.engine;
    }

-- One step, with the frames that it brings.
pub data Step : Receiver → List Skb → Receiver → Type 0 where
  arrives :
      {s : Receiver} (ctrl : ℕ)
      → valid_at s.rx.ch s.engine ≡ true
      → ctrl % 2 ≡ 0
      → Step s (cell (skb_at s.rx.ch s.engine)) (engine_done ctrl s)
  irq :
      {s : Receiver} {rx' : Rx}
      → rx_handle_packets s.rx ≡ some rx'
      → Step s [] (record { rx = rx'; engine = s.engine })

pub data Run (start : Receiver) : List Skb → Receiver → Type 0 where
  idle : Run start [] start
  more :
      {fs gs : List Skb} {s s' : Receiver} → Run start fs s → Step s gs s' → Run start (fs ++ gs) s'

-- The engine is at the first block that does not wait.
pub record InStep (w : ℕ) (s : Receiver) : Type 0 where
  pub ring : IsRxRing s.rx.ch w
  pub place : ahead (size s.rx.ch) s.rx.ch.head w ≡ s.engine

abbrev pub history : ℕ → Receiver → List Skb
history w s = delivered s.rx.calls ++ waiting_frames w s.rx.ch

pub record Kept (before : List Skb) (fs : List Skb) (s : Receiver) : Type 0 where
  pub waiting : ℕ
  pub in_step : InStep waiting s
  pub order : history waiting s ≡ before ++ fs

module _ (ctrl w : ℕ) (s : Receiver) (i : InStep w s) (v : valid_at s.rx.ch s.engine ≡ true)
    (clear : ctrl % 2 ≡ 0) where
  abbrev filled_block : Block
  filled_block = with_ctrl ctrl (block_at s.rx.ch s.engine)

  abbrev done : Channel
  done = (engine_done ctrl s).rx.ch

  engine_inside : s.engine < size s.rx.ch
  engine_inside = ground (arith, i.place, i.ring.head_inside, i.ring.waiting_fits)

  -- The engine does not come round to a block that still waits.
  free_block : w < size s.rx.ch
  free_block = elim (Bool-cases (ltb w (size s.rx.ch))) [
    | inl e ↦ ground arith
    | inr e ↦
        let inside = i.ring.head_inside in
        let fits = i.ring.waiting_fits in
        let here = i.place in
        let near : ltb (dist (size s.rx.ch) s.rx.ch.head s.engine) w ≡ true = ground arith in
        let clash = i.ring.filled s.engine engine_inside ∙ ap not near in absurd (ground arith)
  ]

  done-size : size done ≡ size s.rx.ch
  unfolding engine_done
  done-size = size-update s.rx.ch s.engine filled_block

  done_block :
      (j : ℕ)
      → ((s.engine ≡ j) × (block_at done j ≡ filled_block))
        ⊎ ((s.engine ≢ j) × (block_at done j ≡ block_at s.rx.ch j))
  unfolding engine_done
  done_block j = elim (Bool-cases (s.engine == j)) [
    | inl e ↦
        let same = (==_iff s.engine j).0 e in
        inl (
          same,
          subst (λ k. block_at done k ≡ filled_block) same
              (update_self s.rx.ch s.engine filled_block engine_inside),
        )
    | inr e ↦
        let ne : s.engine ≢ j = λ q. absurd (ground arith) in
        inr (ne, update_ne s.rx.ch s.engine j filled_block ne)
  ]

  done_skb : (j : ℕ) → skb_at done j ≡ skb_at s.rx.ch j
  unfolding with_ctrl
  done_skb j = elim (done_block j) [
    | inl (same, e) ↦ ap (λ (b : Block). b.skb) e ∙ ap (skb_at s.rx.ch) same
    | inr (ne, e) ↦ ap (λ (b : Block). b.skb) e
  ]

  done-Mapped : (j : ℕ) → j < size s.rx.ch → Mapped (block_at done j)
  unfolding with_ctrl
  done-Mapped j lt = elim (done_block j) [
    | inl (same, e) ↦ subst Mapped (sym e) (i.ring.mapped s.engine engine_inside)
    | inr (ne, e) ↦ subst Mapped (sym e) (i.ring.mapped j lt)
  ]

  done_filled :
      (j : ℕ)
      → j < size s.rx.ch
      → valid_at done j ≡ not (ltb (dist (size s.rx.ch) s.rx.ch.head j) (suc w))
  unfolding with_ctrl
  done_filled j lt =
      let inside = i.ring.head_inside in
      let fits = i.ring.waiting_fits in
      let here = i.place in
      let room = free_block in
      elim (done_block j) [
        | inl (same, e) ↦
            let near : ltb (dist (size s.rx.ch) s.rx.ch.head j) (suc w) ≡ true = ground arith in
            rw near (ap (λ (b : Block). valid b.desc) e ∙ ground arith)
        | inr (ne, e) ↦
            let near : ltb (dist (size s.rx.ch) s.rx.ch.head j) (suc w)
                ≡ ltb (dist (size s.rx.ch) s.rx.ch.head j) w =
              ground arith in
            rw near (ap (λ (b : Block). valid b.desc) e ∙ i.ring.filled j lt)
      ]

  done-InStep : InStep (suc w) (engine_done ctrl s)
  unfolding engine_done update
  done-InStep =
      let m = done-size in
      let inside = i.ring.head_inside in
      let room = free_block in
      let here = i.place in
      record {
        ring = record {
          kind = i.ring.kind;
          head_inside = omega arith;
          waiting_fits = omega arith;
          mapped = λ j lt. done-Mapped j (omega (arith, m));
          filled = λ j lt. rw m (done_filled j (omega (arith, m)));
        };
        place = ground (arith, m);
      }

  done-waiting :
      waiting_frames (suc w) done ≡ waiting_frames w s.rx.ch ++ cell (skb_at s.rx.ch s.engine)
  unfolding engine_done update collect
  done-waiting =
      let room = free_block in
      let n = size s.rx.ch in
      let h = s.rx.ch.head in
      let e : suc w ≡ w + 1 = omega arith in
      ap (λ k. collect k (skb_at done) (suc w) h) done-size
      ∙ collect_ext n (skb_at done) (skb_at s.rx.ch) (suc w) h i.ring.head_inside (omega arith)
          (λ j lt d. done_skb j)
      ∙ ap (λ k. collect n (skb_at s.rx.ch) k h) e
      ∙ collect_split n (skb_at s.rx.ch) w 1 h i.ring.head_inside (omega arith)
      ∙ rw (i.place, append-nil (cell (skb_at s.rx.ch s.engine))) refl

Step-Kept :
    {s s' : Receiver} {fs : List Skb} (w : ℕ) → InStep w s → Step s fs s' → Kept (history w s) fs s'
unfolding engine_done collect
Step-Kept {s} w i (arrives ctrl v clear) = record {
  waiting = suc w;
  in_step = done-InStep ctrl w s i v clear;
  order =
      ap (λ fs. delivered s.rx.calls ++ fs) (done-waiting ctrl w s i v clear)
      ∙ sym (
          append_assoc (delivered s.rx.calls) (waiting_frames w s.rx.ch)
            (cell (skb_at s.rx.ch s.engine)));
}
Step-Kept {s} {s'} w i (irq {rx'} e) =
    let h = rx_handle_packets-HandedUp s.rx w i.ring in
    subst (λ x. Kept (history w s) [] (record { rx = x; engine = s.engine }))
      (some-injective h.after rx' (sym h.returns ∙ e))
      (record {
        waiting = 0;
        in_step = record {
          ring = h.ring;
          place = ground (arith, h.ring.head_inside, h.place, i.place);
        };
        order = nothing_waits h.after h.order;
      })
  where
    nothing_waits :
        (after : Rx)
        → delivered after.calls ≡ history w s
        → history 0 (record { rx = after; engine = s.engine }) ≡ history w s ++ []
    nothing_waits after o = append-nil (delivered after.calls) ∙ o ∙ sym (append-nil (history w s))

-- From a receive ring with the DMA engine at the first block that does not wait, however the frames
-- that the engine writes and the interrupts interleave, and whatever memory there is: the ring stays
-- so, and the frames handed up followed by those that wait are those of the start, followed by the
-- frames that came in, in order.
pub Run-InStep :
    {start s : Receiver} {fs : List Skb} (w : ℕ)
    → InStep w start
    → Run start fs s
    → Kept (history w start) fs s
Run-InStep {start} w i idle = record {
  waiting = w;
  in_step = i;
  order = sym (append-nil (history w start));
}
Run-InStep {start} w i (more {fs} {gs} run step) =
    let before = Run-InStep w i run in
    let now = Step-Kept before.waiting before.in_step step in
    record {
      waiting = now.waiting;
      in_step = now.in_step;
      order = now.order ∙ ap (λ hs. hs ++ gs) before.order ∙ append_assoc (history w start) fs gs;
    }
