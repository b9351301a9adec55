-- ===== src/Dxe/Tx/Run.antt =====
-- The transmit ring at work: frames given by mac80211, descriptors finished by the DMA engine, and
-- interrupts, in any order.
use wcn36xx.Common.{
  ℕ, ◌+◌, ◌%◌, ◌≤◌, ◌<◌, ◌≡◌, ◌≢◌, ◌⊎◌, failed, refl, sym, ap, ◌∙◌, inl, inr, Bool, true, false,
  Bool-cases, ◌&&◌, leb, ==_iff, ◌==◌, some, List, [], ◌∷◌, ◌++◌, append_assoc, append-nil, Ret, ok,
  err, ebusy, Errno, arith,
}
use mathlib.Core.Path.{subst}
use mathlib.Core.Bool.{true≢false}
use mathlib.Core.Option.{some-injective}
use wcn36xx.Dxe.State.{Skb, Block, Channel, stop_queues, block_at, next, valid, is_some, update}
use wcn36xx.Dxe.Cyclic.{collect, collect_ext}
use wcn36xx.Dxe.Tx.{Tx, size, notify, tx_frame, reap_tx_dxes}
use wcn36xx.Dxe.Tx.Write.{skb_at, bd_at, update_self, update_ne, size-update, after_tx}
use wcn36xx.Dxe.Tx.Invariant.{valid_at, IsRing, after_tx-IsRing}
use wcn36xx.Dxe.Tx.Fifo.{frames, after_tx-frames, tx_frame_lem}
use wcn36xx.Dxe.Tx.Release.{taken_back, taken_back-append}
use wcn36xx.Dxe.Tx.Reap.{reap_tx_dxes-TakenBack}

-- The DMA engine is done with a descriptor: it writes the control word with the valid bit clear.
unfoldable pub dma_done : ℕ → ℕ → Tx → Tx
dma_done i ctrl s =
    let b = block_at s.ch i in
    record s { ch = update i (record b { desc = record b.desc { ctrl = ctrl } }) s.ch }

-- One step, with the frames that it takes.
pub data Step : Tx → List Skb → Tx → Type 0 where
  taken :
      {s s' : Tx} (frame : Skb) (is_low bmps : Bool)
      → tx_frame frame is_low bmps s ≡ (ok, s')
      → Step s (frame ∷ []) s'
  turned_away :
      {s s' : Tx} (e : Errno) (frame : Skb) (is_low bmps : Bool)
      → tx_frame frame is_low bmps s ≡ (err e, s')
      → Step s [] s'
  dma : {s : Tx} (i ctrl : ℕ) → i < size s.ch → ctrl % 2 ≡ 0 → Step s [] (dma_done i ctrl s)
  irq : {s s' : Tx} → reap_tx_dxes s ≡ some s' → Step s [] s'

pub data Run (start : Tx) : List Skb → Tx → Type 0 where
  idle : Run start [] start
  more : {fs gs : List Skb} {s s' : Tx} → Run start fs s → Step s gs s' → Run start (fs ++ gs) s'

-- What a step keeps: a ring, and the history of the frames.
pub record Kept (old : Tx) (fs : List Skb) (s : Tx) : Type 0 where
  pub used : ℕ
  pub ring : IsRing s.ch used
  pub order : taken_back s.calls ++ frames s.ch ≡ (taken_back old.calls ++ frames old.ch) ++ fs

notify_not_unmap :
    (is_low bmps : Bool) (ch : Channel) → taken_back (notify is_low bmps ch ∷ []) ≡ []
unfolding notify taken_back
notify_not_unmap is_low bmps ch = elim (Bool-cases (is_low && bmps)) [
  | inl e ↦ rw e refl
  | inr e ↦ rw e refl
]

abbrev taken_state : Skb → Bool → Bool → Tx → Tx
taken_state frame is_low bmps s = record s {
  ch = after_tx frame s.ch;
  calls = s.calls ++ (notify is_low bmps s.ch ∷ []);
}

abbrev refused_state : Tx → Tx
refused_state s = record s { queues_stopped = true; calls = s.calls ++ (stop_queues ∷ []) }

taken_state-Kept :
    (frame : Skb) (is_low bmps : Bool) (s : Tx) (used : ℕ)
    → IsRing s.ch used
    → used + 2 ≤ size s.ch
    → Kept s (frame ∷ []) (taken_state frame is_low bmps s)
taken_state-Kept frame is_low bmps s used r fits =
    let lt = r.head_inside in
    let empty =
      r.free (next (size s.ch) s.ch.head) (ground arith) (ground (arith, r.span, r.tail_inside)) in
    record {
      used = used + 2;
      ring = after_tx-IsRing frame s.ch used r empty;
      order =
          rw
            (
              taken_back-append s.calls (notify is_low bmps s.ch ∷ []),
              notify_not_unmap is_low bmps s.ch,
              append-nil (taken_back s.calls),
              after_tx-frames frame s.ch used r empty,
            )
            (sym (append_assoc (taken_back s.calls) (frames s.ch) (frame ∷ [])));
    }

refused_state-Kept : (s : Tx) (used : ℕ) → IsRing s.ch used → Kept s [] (refused_state s)
unfolding taken_back
refused_state-Kept s used r = record {
  used = used;
  ring = r;
  order =
      rw
        (
          taken_back-append s.calls (stop_queues ∷ []),
          append-nil (taken_back s.calls),
          append-nil (taken_back s.calls ++ frames s.ch),
        )
        refl;
}

takes :
    (frame : Skb) (is_low bmps : Bool) (s : Tx) (used : ℕ)
    → IsRing s.ch used
    → leb (used + 2) (size s.ch) ≡ true
    → tx_frame frame is_low bmps s ≡ (ok, taken_state frame is_low bmps s)
takes frame is_low bmps s used r f = tx_frame_lem frame is_low bmps s used r ∙ rw f refl

refuses :
    (frame : Skb) (is_low bmps : Bool) (s : Tx) (used : ℕ)
    → IsRing s.ch used
    → leb (used + 2) (size s.ch) ≡ false
    → tx_frame frame is_low bmps s ≡ (err ebusy, refused_state s)
refuses frame is_low bmps s used r f = tx_frame_lem frame is_low bmps s used r ∙ rw f refl

ok-not-err : (e : Errno) → ok ≢ err e
ok-not-err e q = true≢false (sym (ap failed q))

taken-Kept :
    (frame : Skb) (is_low bmps : Bool) (s s' : Tx) (used : ℕ)
    → IsRing s.ch used
    → tx_frame frame is_low bmps s ≡ (ok, s')
    → Kept s (frame ∷ []) s'
taken-Kept frame is_low bmps s s' used r e = elim (Bool-cases (leb (used + 2) (size s.ch))) [
  | inl f ↦
      let same = ap (λ (p : Ret × Tx). p.1) (sym (takes frame is_low bmps s used r f) ∙ e) in
      subst (λ t. Kept s (frame ∷ []) t) same
        (taken_state-Kept frame is_low bmps s used r (ground arith))
  | inr f ↦
      absurd (
        ok-not-err ebusy
          (ap (λ (p : Ret × Tx). p.0) (sym e ∙ refuses frame is_low bmps s used r f)))
]

turned_away-Kept :
    (e : Errno) (frame : Skb) (is_low bmps : Bool) (s s' : Tx) (used : ℕ)
    → IsRing s.ch used
    → tx_frame frame is_low bmps s ≡ (err e, s')
    → Kept s [] s'
turned_away-Kept e frame is_low bmps s s' used r p =
    elim (Bool-cases (leb (used + 2) (size s.ch))) [
      | inl f ↦
          absurd (
            ok-not-err e
              (ap (λ (p : Ret × Tx). p.0) (sym (takes frame is_low bmps s used r f) ∙ p)))
      | inr f ↦
          let same = ap (λ (p : Ret × Tx). p.1) (sym (refuses frame is_low bmps s used r f) ∙ p) in
          subst (λ t. Kept s [] t) same (refused_state-Kept s used r)
    ]

module _ (i ctrl : ℕ) (s : Tx) (used : ℕ) (r : IsRing s.ch used) (lt : i < size s.ch)
    (clear : ctrl % 2 ≡ 0) where
  abbrev done : Channel
  done = (dma_done i ctrl s).ch

  abbrev cleared : Block
  cleared = record (block_at s.ch i) { desc = record (block_at s.ch i).desc { ctrl = ctrl } }

  dma_block :
      (j : ℕ) → (block_at done j ≡ block_at s.ch j) ⊎ ((i ≡ j) × (block_at done j ≡ cleared))
  unfolding dma_done
  dma_block j = elim (Bool-cases (i == j)) [
    | inl e ↦
        let same = (==_iff i j).0 e in
        inr (same, subst (λ k. block_at done k ≡ cleared) same (update_self s.ch i cleared lt))
    | inr e ↦ inl (update_ne s.ch i j cleared (λ q. absurd (ground arith)))
  ]

  dma_skb : (j : ℕ) → skb_at done j ≡ skb_at s.ch j
  dma_skb j = elim (dma_block j) [
    | inl e ↦ ap (λ (b : Block). b.skb) e
    | inr (same, e) ↦ ap (λ (b : Block). b.skb) e ∙ ap (skb_at s.ch) same
  ]

  dma_bd : (j : ℕ) → bd_at done j ≡ bd_at s.ch j
  dma_bd j = elim (dma_block j) [
    | inl e ↦ ap (λ (b : Block). is_some b.bd_cpu_addr) e
    | inr (same, e) ↦ ap (λ (b : Block). is_some b.bd_cpu_addr) e ∙ ap (bd_at s.ch) same
  ]

  dma_valid : (j : ℕ) → valid_at s.ch j ≡ false → valid_at done j ≡ false
  dma_valid j v = elim (dma_block j) [
    | inl e ↦ ap (λ (b : Block). valid b.desc) e ∙ v
    | inr (same, e) ↦ ap (λ (b : Block). valid b.desc) e ∙ ground arith
  ]

  dma-size : size done ≡ size s.ch
  unfolding dma_done
  dma-size = size-update s.ch i cleared

  dma-IsRing : IsRing done used
  unfolding dma_done update
  dma-IsRing =
      let m = dma-size in
      record {
        even_size = ap (λ k. k % 2) m ∙ r.even_size;
        not_small = omega (arith, m, r.not_small);
        head_inside = omega (arith, m, r.head_inside);
        tail_inside = omega (arith, m, r.tail_inside);
        even_head = r.even_head;
        used_fits = omega (arith, m, r.used_fits);
        span = ground (arith, m, r.span);
        bds = λ j l. dma_bd j ∙ r.bds j (omega (arith, m));
        no_skb = λ j l even. dma_skb j ∙ r.no_skb j (omega (arith, m)) even;
        busy = λ j l odd d.
            ap is_some (dma_skb j) ∙ r.busy j (omega (arith, m)) odd (ground (arith, m));
        free = λ j l d. dma_skb j ∙ r.free j (omega (arith, m)) (ground (arith, m));
        idle = λ j l d. dma_valid j (r.idle j (omega (arith, m)) (ground (arith, m)));
      }

  dma-frames : frames done ≡ frames s.ch
  unfolding frames dma_done update
  dma-frames =
      ap (λ m. collect m (skb_at done) m s.ch.tail) dma-size
      ∙ collect_ext (size s.ch) (skb_at done) (skb_at s.ch) (size s.ch) s.ch.tail r.tail_inside
          (omega arith) (λ j l d. dma_skb j)

  dma-Kept : Kept s [] (dma_done i ctrl s)
  unfolding dma_done
  dma-Kept = record {
    used = used;
    ring = dma-IsRing;
    order =
        ap (λ fs. taken_back s.calls ++ fs) dma-frames
        ∙ sym (append-nil (taken_back s.calls ++ frames s.ch));
  }

irq-Kept : (s s' : Tx) (used : ℕ) → IsRing s.ch used → reap_tx_dxes s ≡ some s' → Kept s [] s'
irq-Kept s s' used r e =
    let t = reap_tx_dxes-TakenBack s used r in
    subst (λ x. Kept s [] x) (some-injective t.after s' (sym t.returns ∙ e))
      (record {
        used = t.left;
        ring = t.ring;
        order = t.order ∙ sym (append-nil (taken_back s.calls ++ frames s.ch));
      })

Step-Kept : {s s' : Tx} {fs : List Skb} (used : ℕ) → IsRing s.ch used → Step s fs s' → Kept s fs s'
Step-Kept {s} {s'} used r (taken frame is_low bmps e) = taken-Kept frame is_low bmps s s' used r e
Step-Kept {s} {s'} used r (turned_away e frame is_low bmps p) =
    turned_away-Kept e frame is_low bmps s s' used r p
Step-Kept {s} used r (dma i ctrl lt clear) = dma-Kept i ctrl s used r lt clear
Step-Kept {s} {s'} used r (irq e) = irq-Kept s s' used r e

-- From a well-formed ring, however frames, the DMA engine and interrupts interleave, the ring stays
-- well formed, and the frames taken back followed by those in the ring are those of the start,
-- followed by the frames taken, in order.
pub Run-Kept :
    {start s : Tx} {fs : List Skb} (used : ℕ)
    → IsRing start.ch used
    → Run start fs s
    → Kept start fs s
Run-Kept {start} used r idle = record {
  used = used;
  ring = r;
  order = sym (append-nil (taken_back start.calls ++ frames start.ch));
}
Run-Kept {start} used r (more {fs} {gs} run step) =
    let before = Run-Kept used r run in
    let now = Step-Kept before.used before.ring step in
    record {
      used = now.used;
      ring = now.ring;
      order =
          now.order
          ∙ ap (λ hs. hs ++ gs) before.order
          ∙ append_assoc (taken_back start.calls ++ frames start.ch) fs gs;
    }
