-- ===== src/Dxe/Tx/Release.antt =====
-- One block taken back by `reap_tx_dxes`, and the frames that are left in the ring.
use wcn36xx.Common.{
  ℕ, suc, ◌%◌, ◌≤◌, ◌<◌, ◌≡◌, ◌≢◌, refl, sym, ap, ◌∙◌, inl, inr, Bool, true, false, Bool-cases,
  ==_iff, ◌==◌, Option, none, some, List, [], ◌∷◌, ◌++◌, append-nil, arith,
}
use mathlib.Core.Path.{subst}
use wcn36xx.Dxe.State.{
  Skb, Block, Channel, Event, unmap, stop_queues, wake_queues, free_txskb, smsm_change_state,
  write_register, unmap_from_device, deliver, kfree_skb, block_at, next, valid, is_some, update,
}
use wcn36xx.Dxe.Cyclic.{dist, cell, collect, collect_ext}
use wcn36xx.Dxe.Tx.{Tx, size, free_calls, wake_calls, release_skb, release}
use wcn36xx.Dxe.Tx.Write.{skb_at, bd_at, update_self, update_ne, size-update}
use wcn36xx.Dxe.Tx.Invariant.{valid_at, IsRing}
use wcn36xx.Dxe.Tx.Fifo.{frames, frames-used}

-- The frames whose mapping was given up, in that order.
unfoldable pub taken_back : List Event → List Skb
taken_back [] = []
taken_back (unmap a frame ∷ es) = frame ∷ taken_back es
taken_back (e ∷ es) = taken_back es

pub taken_back-append :
    (es fs : List Event) → taken_back (es ++ fs) ≡ taken_back es ++ taken_back fs
unfolding taken_back
taken_back-append [] fs = refl
taken_back-append (unmap a frame ∷ es) fs = ap (λ r. frame ∷ r) (taken_back-append es fs)
taken_back-append (stop_queues ∷ es) fs = taken_back-append es fs
taken_back-append (wake_queues ∷ es) fs = taken_back-append es fs
taken_back-append (free_txskb a ∷ es) fs = taken_back-append es fs
taken_back-append (smsm_change_state a b ∷ es) fs = taken_back-append es fs
taken_back-append (write_register a b ∷ es) fs = taken_back-append es fs
taken_back-append (unmap_from_device a ∷ es) fs = taken_back-append es fs
taken_back-append (deliver o ∷ es) fs = taken_back-append es fs
taken_back-append (kfree_skb o ∷ es) fs = taken_back-append es fs

-- The channel with the tail at `i`: where the walk is.
abbrev pub from : ℕ → Channel → Channel
from i ch = record ch { tail = i }

-- One block.
pub release_block_self :
    (i : ℕ) (s : Tx)
    → i < size s.ch
    → (skb_at (release i s).ch i ≡ none)
      × (bd_at (release i s).ch i ≡ bd_at s.ch i)
      × (valid_at (release i s).ch i ≡ valid_at s.ch i)
unfolding release release_skb
release_block_self i s lt = by_skb (skb_at s.ch i) refl
  where
    by_skb :
        (o : Option Skb)
        → skb_at s.ch i ≡ o
        → (skb_at (release_skb i o s).ch i ≡ none)
          × (bd_at (release_skb i o s).ch i ≡ bd_at s.ch i)
          × (valid_at (release_skb i o s).ch i ≡ valid_at s.ch i)
    by_skb none e = (e, refl, refl)
    by_skb (some frame) e =
        let b = block_at s.ch i in
        let own = update_self s.ch i (record b { skb = none }) lt in
        (
          ap (λ (c : Block). c.skb) own,
          ap (λ (c : Block). is_some c.bd_cpu_addr) own,
          ap (λ (c : Block). valid c.desc) own,
        )

release_block_other : (i j : ℕ) (s : Tx) → i ≢ j → block_at (release i s).ch j ≡ block_at s.ch j
unfolding release release_skb
release_block_other i j s ne = by_skb (skb_at s.ch i)
  where
    by_skb : (o : Option Skb) → block_at (release_skb i o s).ch j ≡ block_at s.ch j
    by_skb none = refl
    by_skb (some frame) = update_ne s.ch i j (record (block_at s.ch i) { skb = none }) ne

pub size-release : (i : ℕ) (s : Tx) → size (release i s).ch ≡ size s.ch
unfolding release release_skb
size-release i s = by_skb (skb_at s.ch i)
  where
    by_skb : (o : Option Skb) → size (release_skb i o s).ch ≡ size s.ch
    by_skb none = refl
    by_skb (some frame) = size-update s.ch i (record (block_at s.ch i) { skb = none })

pub head-release : (i : ℕ) (s : Tx) → (release i s).ch.head ≡ s.ch.head
unfolding release release_skb update
head-release i s = by_skb (skb_at s.ch i)
  where
    by_skb : (o : Option Skb) → (release_skb i o s).ch.head ≡ s.ch.head
    by_skb none = refl
    by_skb (some frame) = refl

taken_back-free_calls : (frame : Skb) → taken_back (free_calls frame) ≡ []
unfolding taken_back
taken_back-free_calls frame = elim (Bool-cases frame.wants_status) [
  | inl e ↦ rw e refl
  | inr e ↦ rw e refl
]

taken_back-wake_calls : (b : Bool) → taken_back (wake_calls b) ≡ []
unfolding taken_back
taken_back-wake_calls true = refl
taken_back-wake_calls false = refl

pub taken_back-release :
    (i : ℕ) (s : Tx) → taken_back (release i s).calls ≡ taken_back s.calls ++ cell (skb_at s.ch i)
unfolding release release_skb taken_back
taken_back-release i s = by_skb (skb_at s.ch i)
  where
    by_skb : (o : Option Skb) → taken_back (release_skb i o s).calls ≡ taken_back s.calls ++ cell o
    by_skb none = sym (append-nil (taken_back s.calls))
    by_skb (some frame) =
        let one = unmap (block_at s.ch i).desc.src_addr_l frame ∷ [] in
        rw
          (
            taken_back-append ((s.calls ++ one) ++ free_calls frame) (wake_calls s.queues_stopped),
            taken_back-append (s.calls ++ one) (free_calls frame),
            taken_back-append s.calls one,
            taken_back-free_calls frame,
            taken_back-wake_calls s.queues_stopped,
            append-nil (taken_back s.calls ++ (frame ∷ [])),
            append-nil (taken_back s.calls ++ (frame ∷ [])),
          )
          refl

-- After the block at the tail was taken back, the ring is one block shorter.
module _ (i u : ℕ) (s : Tx) (r : IsRing (from i s.ch) (suc u))
    (done : valid_at s.ch i ≡ false) where
  abbrev n : ℕ
  n = size s.ch

  abbrev later : Channel
  later = (release i s).ch

  here : i < n
  unfolding size
  here = r.tail_inside

  other : (j : ℕ) → i ≢ j → block_at later j ≡ block_at s.ch j
  other j ne = release_block_other i j s ne

  apart_of : (j : ℕ) → (i == j) ≡ false → i ≢ j
  apart_of j e q = absurd (ground arith)

  bds_later : (j : ℕ) → j < n → bd_at later j ≡ (j % 2 == 0)
  unfolding size
  bds_later j lt = elim (Bool-cases (i == j)) [
    | inl e ↦
        subst (λ k. bd_at later k ≡ (k % 2 == 0)) ((==_iff i j).0 e)
          ((release_block_self i s here).1 ∙ r.bds i here)
    | inr e ↦ ap (λ (b : Block). is_some b.bd_cpu_addr) (other j (apart_of j e)) ∙ r.bds j lt
  ]

  no_skb_later : (j : ℕ) → j < n → j % 2 ≡ 0 → skb_at later j ≡ none
  unfolding size
  no_skb_later j lt even = elim (Bool-cases (i == j)) [
    | inl e ↦ subst (λ k. skb_at later k ≡ none) ((==_iff i j).0 e) (release_block_self i s here).0
    | inr e ↦ ap (λ (b : Block). b.skb) (other j (apart_of j e)) ∙ r.no_skb j lt even
  ]

  busy_later :
      (j : ℕ) → j < n → j % 2 ≡ 1 → dist n (next n i) j < u → is_some (skb_at later j) ≡ true
  unfolding size
  busy_later j lt odd d =
      let lt' = here in
      let fits : suc u ≤ n = r.used_fits in
      let apart : i ≢ j = λ e. absurd (ground arith) in
      ap (λ (b : Block). is_some b.skb) (other j apart) ∙ r.busy j lt odd (ground arith)

  free_later :
      (j : ℕ)
      → j < n
      → u ≤ dist n (next n i) j
      → (skb_at later j ≡ none) × (valid_at later j ≡ false)
  unfolding size
  free_later j lt d = elim (Bool-cases (i == j)) [
    | inl e ↦
        let own = release_block_self i s here in
        subst (λ k. (skb_at later k ≡ none) × (valid_at later k ≡ false)) ((==_iff i j).0 e)
          (own.0, own.2 ∙ done)
    | inr e ↦
        let lt' = here in
        let far : suc u ≤ dist n i j = ground (arith, apart_of j e) in
        let same = other j (apart_of j e) in
        (
          ap (λ (b : Block). b.skb) same ∙ r.free j lt far,
          ap (λ (b : Block). valid b.desc) same ∙ r.idle j lt far,
        )
  ]

  pub release-IsRing : IsRing (from (next n i) later) u
  unfolding size
  release-IsRing =
      let m : size later ≡ n = size-release i s in
      let h = head-release i s in
      let lt = here in
      let fits : suc u ≤ n = r.used_fits in
      record {
        even_size = ap (λ k. k % 2) m ∙ r.even_size;
        not_small = omega (arith, m, r.not_small);
        head_inside = omega (arith, m, h, r.head_inside);
        tail_inside = ground (arith, m);
        even_head = ap (λ k. k % 2) h ∙ r.even_head;
        used_fits = omega (arith, m, fits);
        span = ground (arith, m, h, r.span);
        bds = λ j lt. bds_later j (omega (arith, m));
        no_skb = λ j lt even. no_skb_later j (omega (arith, m)) even;
        busy = λ j lt odd d. busy_later j (omega (arith, m)) odd (ground (arith, m));
        free = λ j lt d. (free_later j (omega (arith, m)) (ground (arith, m))).0;
        idle = λ j lt d. (free_later j (omega (arith, m)) (ground (arith, m))).1;
      }

  -- The frame of that block, when it has one, was the first of those in the ring.
  pub release-frames : frames (from i s.ch) ≡ cell (skb_at s.ch i) ++ frames (from (next n i) later)
  unfolding collect size
  release-frames =
      let lt = here in
      let fits : suc u ≤ n = r.used_fits in
      let same =
        collect_ext n (skb_at s.ch) (skb_at later) u (next n i) (ground arith) (omega arith)
          (λ j j_lt d. ap (λ (b : Block). b.skb) (sym (other j (λ e. absurd (ground arith))))) in
      frames-used (from i s.ch) (suc u) r
      ∙ ap (λ fs. cell (skb_at s.ch i) ++ fs)
          (same
            ∙ ap (λ m. collect m (skb_at later) u (next n i)) (sym (size-release i s))
            ∙ sym (frames-used (from (next n i) later) u release-IsRing))
