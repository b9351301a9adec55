-- ===== src/Dxe/Tx/Reap.antt =====
-- `reap_tx_dxes` ends, and takes frames back from the tail in the order in which they were given.
use wcn36xx.Common.{
  ℕ, zero, suc, ◌-◌, ◌≤◌, ◌<◌, ◌≡◌, ◌⊎◌, refl, sym, ap, ◌∙◌, inl, inr, true, false, Bool-cases,
  ==_iff, ◌==◌, if◌then◌else◌, Option, none, some, ◌++◌, append_assoc, arith,
}
use mathlib.Core.Path.{subst}
use wcn36xx.Dxe.State.{next}
use wcn36xx.Dxe.Cyclic.{dist, cell}
use wcn36xx.Dxe.Tx.{Tx, size, release_skb, release, reap_loop, reap_tx_dxes}
use wcn36xx.Dxe.Tx.Write.{skb_at}
use wcn36xx.Dxe.Tx.Invariant.{valid_at, IsRing}
use wcn36xx.Dxe.Tx.Fifo.{frames}
use wcn36xx.Dxe.Tx.Release.{taken_back, from, taken_back-release, release-IsRing, release-frames}

-- A walk from `i` that came to an end: what it left is a ring, no frame was lost or moved ahead of
-- another, and it went as far as it could.
pub record Reaped (i : ℕ) (s : Tx) (result : Option (ℕ × Tx)) : Type 0 where
  pub place : ℕ
  pub after : Tx
  pub left : ℕ
  pub returns : result ≡ some (place, after)
  pub ring : IsRing (from place after.ch) left
  pub order :
      taken_back after.calls ++ frames (from place after.ch)
      ≡ taken_back s.calls ++ frames (from i s.ch)
  pub finished : (left ≡ 0) ⊎ (valid_at after.ch place ≡ true)

-- One round that goes on.
one_round :
    (i u : ℕ) (s : Tx) (r : IsRing (from i s.ch) (suc u)) (done : valid_at s.ch i ≡ false)
    → taken_back (release i s).calls ++ frames (from (next (size s.ch) i) (release i s).ch)
      ≡ taken_back s.calls ++ frames (from i s.ch)
one_round i u s r done =
    rw (taken_back-release i s, release-frames i u s r done)
      (append_assoc (taken_back s.calls) (cell (skb_at s.ch i))
        (frames (from (next (size s.ch) i) (release i s).ch)))

reap_loop-Reaped :
    (fuel i u : ℕ) (s : Tx)
    → IsRing (from i s.ch) (suc u)
    → suc u ≤ fuel
    → Reaped i s (reap_loop fuel i s)
unfolding reap_loop size
reap_loop-Reaped zero i u s r enough = absurd (omega arith)
reap_loop-Reaped (suc fuel) i u s r enough = elim (Bool-cases (valid_at s.ch i)) [
  | inl v ↦ record {
    place = i;
    after = s;
    left = suc u;
    returns = rw v refl;
    ring = r;
    order = refl;
    finished = inr v;
  }
  | inr v ↦
      let n = size s.ch in
      let i' = next n i in
      let s' = release i s in
      let r' = release-IsRing i u s r v in
      let order' = one_round i u s r v in
      elim (Bool-cases (i' == s.ch.head)) [
        | inl e ↦ record {
          place = i';
          after = s';
          left = u;
          returns = rw (v, e) refl;
          ring = r';
          order = order';
          finished = inl (ground (arith, r.span, r.tail_inside, r.used_fits));
        }
        | inr e ↦ elim (Bool-cases (valid_at s'.ch i')) [
          | inl w ↦ record {
            place = i';
            after = s';
            left = u;
            returns = rw (v, e, w) refl;
            ring = r';
            order = order';
            finished = inr w;
          }
          | inr w ↦
              let more : u ≡ suc (u - 1) = ground (arith, r.span, r.tail_inside, r.used_fits) in
              let rest =
                reap_loop-Reaped fuel i' (u - 1) s' (subst (λ k. IsRing (from i' s'.ch) k) more r')
                  (omega arith) in
              record {
                place = rest.place;
                after = rest.after;
                left = rest.left;
                returns = rw (v, e, w) rest.returns;
                ring = rest.ring;
                order =
                    ◌∙◌ {a = taken_back rest.after.calls ++ frames (from rest.place rest.after.ch)}
                      rest.order order';
                finished = rest.finished;
              }
        ]
      ]
]

-- A ring without frames: the walk goes once around and changes nothing.
release_nothing : (i : ℕ) (s : Tx) → skb_at s.ch i ≡ none → release i s ≡ s
unfolding release release_skb
release_nothing i s e = rw e refl

abbrev steps_to : ℕ → ℕ → ℕ → ℕ
steps_to n i h = if i == h then n else dist n i h

around :
    (fuel i : ℕ) (s : Tx)
    → IsRing s.ch 0
    → i < size s.ch
    → steps_to (size s.ch) i s.ch.head ≤ fuel
    → reap_loop fuel i s ≡ some (s.ch.head, s)
unfolding reap_loop
around zero i s r lt enough = absurd (ground (arith, r.head_inside))
around (suc fuel) i s r lt enough =
    let empty = r.free i lt (omega arith) in
    let idle = r.idle i lt (omega arith) in
    let i' = next (size s.ch) i in
    let i'_lt : i' < size s.ch = ground arith in
    rw (idle, release_nothing i s empty)
      (elim (Bool-cases (i' == s.ch.head)) [
        | inl e ↦ rw e (ap (λ k. some (k, s)) ((==_iff i' s.ch.head).0 e))
        | inr e ↦
            rw (e, r.idle i' i'_lt (omega arith))
              (around fuel i' s r i'_lt (ground (arith, r.head_inside)))
      ])

-- What a call leaves.
pub record TakenBack (s : Tx) (result : Option Tx) : Type 0 where
  pub after : Tx
  pub left : ℕ
  pub returns : result ≡ some after
  pub ring : IsRing after.ch left
  pub order : taken_back after.calls ++ frames after.ch ≡ taken_back s.calls ++ frames s.ch
  pub finished : (left ≡ 0) ⊎ (valid_at after.ch after.ch.tail ≡ true)

-- On a well-formed ring the walk ends within one round, loses no frame and keeps their order, and
-- stops only at a block that the DMA engine still has or when no block is used.
pub reap_tx_dxes-TakenBack : (s : Tx) (used : ℕ) → IsRing s.ch used → TakenBack s (reap_tx_dxes s)
unfolding reap_tx_dxes size
reap_tx_dxes-TakenBack s zero r =
    let same : s.ch.tail ≡ s.ch.head = ground (arith, r.span, r.tail_inside) in
    record {
      after = record s { ch = from s.ch.head s.ch };
      left = 0;
      returns =
          rw (around (size s.ch) s.ch.tail s r r.tail_inside (ground (arith, same)), reap_tx_dxes)
            refl;
      ring = subst (λ k. IsRing (from k s.ch) 0) same r;
      order = ap (λ k. taken_back s.calls ++ frames (from k s.ch)) (sym same);
      finished = inl refl;
    }
reap_tx_dxes-TakenBack s (suc u) r =
    let walk = reap_loop-Reaped (size s.ch) s.ch.tail u s r r.used_fits in
    record {
      after = record walk.after { ch = from walk.place walk.after.ch };
      left = walk.left;
      returns = rw (walk.returns, reap_tx_dxes) refl;
      ring = walk.ring;
      order = walk.order;
      finished = walk.finished;
    }
