-- ===== src/Dxe/Rx/Walk.antt =====
-- `wcn36xx_rx_handle_packets` ends, hands the waiting frames up in order, and fills their blocks again.
use wcn36xx.Common.{
  ℕ, zero, suc, ◌≤◌, ◌<◌, ◌≡◌, ◌≢◌, refl, sym, ap, ◌∙◌, inl, inr, true, false, not, Bool-cases,
  ==_iff, ltb, ◌==◌, Option, none, some, List, [], ◌∷◌, ◌++◌, append_assoc, append-nil, arith,
}
use mathlib.Core.Path.{subst}
use wcn36xx.Dxe.State.{Skb, Block, Channel, block_at, next, valid}
use wcn36xx.Dxe.Cyclic.{dist, ahead, cell, collect, collect_ext}
use wcn36xx.Dxe.Tx.{size}
use wcn36xx.Dxe.Tx.Write.{skb_at}
use wcn36xx.Dxe.Tx.Invariant.{valid_at}
use wcn36xx.Dxe.Rx.{Rx, rx_one, rx_loop, rx_handle_packets, with_buffer}
use wcn36xx.Dxe.Rx.Invariant.{
  receives, delivered, Mapped, IsRxRing, from, refill, rest_of, Round, rx_one-Round,
}

-- The buffers that blocks have after they were filled again one after the other, by the outcomes of
-- `alloc_skb`: the new one, or without memory the one that went up.
unfoldable pub held_after : List (Option Skb) → List Skb → List Skb
held_after os [] = []
held_after [] (x ∷ xs) = x ∷ held_after [] xs
held_after (none ∷ os) (x ∷ xs) = x ∷ held_after os xs
held_after (some f ∷ os) (x ∷ xs) = f ∷ held_after os xs

held_one :
    (os : List (Option Skb)) (b : Block) (f : Skb) (xs : List Skb)
    → b.skb ≡ some f
    → cell (refill os b).skb ++ held_after (rest_of os) xs ≡ held_after os (cell b.skb ++ xs)
unfolding held_after refill rest_of with_buffer
held_one [] b f xs e = rw e refl
held_one (none ∷ os) b f xs e = rw e refl
held_one (some g ∷ os) b f xs e = rw e refl

-- The frames that wait, in the order of the walk.
abbrev pub waiting_frames : ℕ → Channel → List Skb
waiting_frames w ch = collect (size ch) (skb_at ch) w ch.head

-- The walk from `i` over `w` blocks.
pub record Handled (i w : ℕ) (s : Rx) (result : Option (ℕ × Rx)) : Type 0 where
  pub after : Rx
  pub returns : result ≡ some (ahead (size s.ch) i w, after)
  pub ring : IsRxRing (from (ahead (size s.ch) i w) after.ch) 0
  pub order : delivered after.calls ≡ delivered s.calls ++ collect (size s.ch) (skb_at s.ch) w i
  pub refilled :
      collect (size s.ch) (skb_at after.ch) w i
      ≡ held_after s.skbs (collect (size s.ch) (skb_at s.ch) w i)
  pub kept : (j : ℕ) → j < size s.ch → w ≤ dist (size s.ch) i j → skb_at after.ch j ≡ skb_at s.ch j
  pub same_size : size after.ch ≡ size s.ch

module _ (i u : ℕ) (s : Rx) (r : IsRxRing (from i s.ch) (suc u)) where
  abbrev after_one : Rx
  after_one = rx_one i s

  round : Round i s after_one
  unfolding size
  round = rx_one-Round i s r.kind r.head_inside

  round_valid :
      (j : ℕ)
      → j < size s.ch
      → valid_at after_one.ch j ≡ not (ltb (dist (size s.ch) (next (size s.ch) i) j) u)
  unfolding size
  round_valid j lt =
      let fits : suc u ≤ size s.ch = r.waiting_fits in
      let inside : i < size s.ch = r.head_inside in
      elim (Bool-cases (i == j)) [
        | inl e ↦
            let same = (==_iff i j).0 e in
            let far : ltb (dist (size s.ch) (next (size s.ch) i) j) u ≡ false = ground arith in
            rw far (subst (λ k. valid_at after_one.ch k ≡ true) same round.is_valid)
        | inr e ↦
            let ne : i ≢ j = λ q. absurd (ground arith) in
            let near : ltb (dist (size s.ch) i j) (suc u)
                ≡ ltb (dist (size s.ch) (next (size s.ch) i) j) u =
              ground arith in
            ap (λ (b : Block). valid b.desc) (round.elsewhere j ne) ∙ r.filled j lt ∙ ap not near
      ]

  round-Mapped : (j : ℕ) → j < size s.ch → Mapped (block_at after_one.ch j)
  unfolding size
  round-Mapped j lt = elim (Bool-cases (i == j)) [
    | inl e ↦
        subst (λ k. Mapped (block_at after_one.ch k)) ((==_iff i j).0 e)
          (round.still_mapped (r.mapped i r.head_inside))
    | inr e ↦ subst Mapped (sym (round.elsewhere j (λ q. absurd (ground arith)))) (r.mapped j lt)
  ]

  round-IsRxRing : IsRxRing (from (next (size s.ch) i) after_one.ch) u
  unfolding size
  round-IsRxRing =
      let m = round.same_size in
      let fits = r.waiting_fits in
      let inside = r.head_inside in
      record {
        kind = ap receives round.same_type ∙ r.kind;
        head_inside = ground arith;
        waiting_fits = omega arith;
        mapped = λ j lt. round-Mapped j (omega (arith, m));
        filled = λ j lt. round_valid j (omega (arith, m)) ∙ rw m refl;
      }

  -- What the later blocks hold is what they held, and what the round and the later rounds fill in.
  later_frames :
      collect (size s.ch) (skb_at after_one.ch) u (next (size s.ch) i)
      ≡ collect (size s.ch) (skb_at s.ch) u (next (size s.ch) i)
  unfolding size
  later_frames =
      let fits = r.waiting_fits in
      let inside = r.head_inside in
      collect_ext (size s.ch) (skb_at after_one.ch) (skb_at s.ch) u (next (size s.ch) i)
        (ground arith) (omega arith)
        (λ j lt d. ap (λ (b : Block). b.skb) (round.elsewhere j (λ q. absurd (ground arith))))

  joined :
      (after : Channel)
      → skb_at after i ≡ (refill s.skbs (block_at s.ch i)).skb
      → collect (size after_one.ch) (skb_at after) u (next (size s.ch) i)
        ≡ held_after after_one.skbs
            (collect (size after_one.ch) (skb_at after_one.ch) u (next (size s.ch) i))
      → collect (size s.ch) (skb_at after) (suc u) i
        ≡ held_after s.skbs (collect (size s.ch) (skb_at s.ch) (suc u) i)
  unfolding collect size
  joined after here later =
      let n = size s.ch in
      let i' = next n i in
      let (f, has, mapped) = r.mapped i r.head_inside in
      let tail : collect n (skb_at after) u i'
          ≡ held_after (rest_of s.skbs) (collect n (skb_at s.ch) u i') =
        ap (λ k. collect k (skb_at after) u i') (sym round.same_size)
        ∙ later
        ∙ ap (λ os. held_after os (collect (size after_one.ch) (skb_at after_one.ch) u i'))
            round.rest
        ∙ ap (λ k. held_after (rest_of s.skbs) (collect k (skb_at after_one.ch) u i'))
            round.same_size
        ∙ ap (held_after (rest_of s.skbs)) later_frames in
      ap (λ o. cell o ++ collect n (skb_at after) u i') here
      ∙ ap (λ xs. cell (refill s.skbs (block_at s.ch i)).skb ++ xs) tail
      ∙ held_one s.skbs (block_at s.ch i) f (collect n (skb_at s.ch) u i') has

-- Nothing waits: the walk stops at once.
stopped : (i : ℕ) (s : Rx) → IsRxRing (from i s.ch) 0 → valid_at s.ch i ≡ true
unfolding size
stopped i s r =
    let far : ltb (dist (size s.ch) i i) 0 ≡ false = ground arith in
    r.filled i r.head_inside ∙ ap not far

moving : (i u : ℕ) (s : Rx) → IsRxRing (from i s.ch) (suc u) → valid_at s.ch i ≡ false
unfolding size
moving i u s r =
    let near : ltb (dist (size s.ch) i i) (suc u) ≡ true = ground arith in
    r.filled i r.head_inside ∙ ap not near

rx_loop-Handled :
    (fuel i w : ℕ) (s : Rx) → IsRxRing (from i s.ch) w → w < fuel → Handled i w s (rx_loop fuel i s)
unfolding rx_loop collect held_after size
rx_loop-Handled zero i w s r enough = absurd (omega arith)
rx_loop-Handled (suc fuel) i zero s r enough =
    let inside = r.head_inside in
    let place : ahead (size s.ch) i 0 ≡ i = ground arith in
    record {
      after = s;
      returns = rw (stopped i s r, place) refl;
      ring = subst (λ k. IsRxRing (from k s.ch) 0) (sym place) r;
      order = sym (append-nil (delivered s.calls));
      refilled = refl;
      kept = λ j lt d. refl;
      same_size = refl;
    }
rx_loop-Handled (suc fuel) i (suc u) s r enough =
    let n = size s.ch in
    let inside = r.head_inside in
    let fits = r.waiting_fits in
    let one = round i u s r in
    let s' = rx_one i s in
    let i' = next n i in
    let m = one.same_size in
    let inside' : i' < n = ground arith in
    let rest = rx_loop-Handled fuel i' u s' (round-IsRxRing i u s r) (omega arith) in
    let place : ahead (size s'.ch) i' u ≡ ahead n i (suc u) = ground (arith, m) in
    record {
      after = rest.after;
      returns = rw (moving i u s r) (rest.returns ∙ ap (λ k. some (k, rest.after)) place);
      ring = subst (λ k. IsRxRing (from k rest.after.ch) 0) place rest.ring;
      order =
          rest.order
          ∙ rw (m, one.up, later_frames i u s r)
              (append_assoc (delivered s.calls) (cell (skb_at s.ch i))
                (collect n (skb_at s.ch) u i'));
      refilled =
          joined i u s r rest.after.ch
            (rest.kept i (omega (arith, m)) (ground (arith, m)) ∙ one.refilled) rest.refilled;
      kept = λ j lt d.
          rest.kept j (omega (arith, m)) (ground (arith, m))
          ∙ ap (λ (b : Block). b.skb) (one.elsewhere j (λ q. absurd (ground arith)));
      same_size = rest.same_size ∙ m;
    }

-- What a call leaves.
pub record HandedUp (w : ℕ) (s : Rx) (result : Option Rx) : Type 0 where
  pub after : Rx
  pub returns : result ≡ some after
  pub ring : IsRxRing after.ch 0
  pub place : after.ch.head ≡ ahead (size s.ch) s.ch.head w
  pub order : delivered after.calls ≡ delivered s.calls ++ waiting_frames w s.ch
  pub refilled :
      collect (size s.ch) (skb_at after.ch) w s.ch.head ≡ held_after s.skbs (waiting_frames w s.ch)
  pub kept :
      (j : ℕ) → j < size s.ch → w ≤ dist (size s.ch) s.ch.head j → skb_at after.ch j ≡ skb_at s.ch j

-- On a receive ring with w waiting frames, the call ends and leaves a ring without waiting frames, the
-- head w blocks on. It hands up exactly the waiting frames, in order. The blocks that held them have
-- the new buffers in the order of the calls of alloc_skb, except that a block for which there was no
-- memory still has the frame that went up. The other blocks keep their buffers.
pub rx_handle_packets-HandedUp :
    (s : Rx) (w : ℕ) → IsRxRing s.ch w → HandedUp w s (rx_handle_packets s)
unfolding rx_handle_packets size
rx_handle_packets-HandedUp s w r =
    let fits = r.waiting_fits in
    let walk = rx_loop-Handled (suc (size s.ch)) s.ch.head w s r (omega arith) in
    record {
      after = record walk.after { ch = from (ahead (size s.ch) s.ch.head w) walk.after.ch };
      returns = rw (walk.returns, rx_handle_packets) refl;
      ring = walk.ring;
      place = refl;
      order = walk.order;
      refilled = walk.refilled;
      kept = walk.kept;
    }
