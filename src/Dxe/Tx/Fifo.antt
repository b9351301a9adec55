-- ===== src/Dxe/Tx/Fifo.antt =====
-- The frames in the ring, in the order of the walk from the tail: a frame that is taken goes to the end.
use wcn36xx.Common.{
  ℕ, ◌+◌, ◌-◌, ◌%◌, ◌≤◌, ◌≡◌, ◌≢◌, refl, sym, ap, ◌∙◌, inl, inr, Bool, true, false, Bool-cases, leb,
  if◌then◌else◌, Option, none, some, List, [], ◌∷◌, ◌++◌, append-nil, ok, err, ebusy, arith,
}
use mathlib.Core.Bool.{true≢false}
use wcn36xx.Dxe.State.{Skb, Block, Channel, stop_queues, next, is_some, update}
use wcn36xx.Dxe.Cyclic.{dist, ahead, collect, collect_ext, collect_empty, collect_split}
use wcn36xx.Dxe.Tx.{Tx, size, put_bd, put_skb, with_bd, with_skb, with_desc, notify, tx_frame}
use wcn36xx.Dxe.Tx.Write.{
  skb_at, bd_at, started_bd, after_tx, size-after_tx, after_tx_head, after_tx-ctl, after_tx_other,
  tail-after_tx,
}
use wcn36xx.Dxe.Tx.Invariant.{IsRing, room, after_tx-IsRing}

-- The frames that the DMA engine has been given and that were not taken back.
unfoldable pub frames : Channel → List Skb
frames ch = collect (size ch) (skb_at ch) (size ch) ch.tail

-- Only the used blocks hold frames.
pub frames-used :
    (ch : Channel) (used : ℕ)
    → IsRing ch used
    → frames ch ≡ collect (size ch) (skb_at ch) used ch.tail
unfolding frames
frames-used ch used r =
    let n = size ch in
    let place = ahead n ch.tail used in
    let lt = r.tail_inside in
    let fits = r.used_fits in
    let whole : n ≡ used + (n - used) = omega arith in
    let rest =
      collect_empty n (skb_at ch) (n - used) place (ground arith) (omega arith)
        (λ j j_lt d. r.free j j_lt (ground arith)) in
    ap (λ k. collect n (skb_at ch) k ch.tail) whole
    ∙ collect_split n (skb_at ch) used (n - used) ch.tail lt fits
    ∙ ap (λ fs. collect n (skb_at ch) used ch.tail ++ fs) rest
    ∙ append-nil (collect n (skb_at ch) used ch.tail)

module _ (frame : Skb) (ch : Channel) (used : ℕ) (r : IsRing ch used)
    (empty : skb_at ch (next (size ch) ch.head) ≡ none) where
  abbrev new : Channel
  new = after_tx frame ch

  same_before :
      collect (size ch) (skb_at new) used ch.tail ≡ collect (size ch) (skb_at ch) used ch.tail
  same_before =
      let fits = room ch used r empty in
      collect_ext (size ch) (skb_at new) (skb_at ch) used ch.tail r.tail_inside r.used_fits
        (λ j j_lt d.
          let apart : ch.head ≢ j =
            λ e. absurd (ground (arith, r.span, r.tail_inside, r.head_inside)) in
          let apart' : next (size ch) ch.head ≢ j =
            λ e. absurd (ground (arith, r.span, r.tail_inside, r.head_inside)) in
          ap (λ (b : Block). b.skb) (after_tx_other frame ch j apart apart'))

  two_more : collect (size ch) (skb_at new) 2 ch.head ≡ frame ∷ []
  unfolding collect with_bd with_desc with_skb
  two_more =
      let bd = ap (λ (b : Block). b.skb) (after_tx_head frame ch r.not_small r.head_inside) in
      let own = ap (λ (b : Block). b.skb) (after_tx-ctl frame ch r.not_small r.head_inside) in
      rw (bd, own) refl

  pub after_tx-frames : frames (after_tx frame ch) ≡ frames ch ++ (frame ∷ [])
  after_tx-frames =
      let n = size ch in
      let r' = after_tx-IsRing frame ch used r empty in
      frames-used (after_tx frame ch) (used + 2) r'
      ∙ rw
          (
            size-after_tx frame ch,
            tail-after_tx frame ch,
            collect_split n (skb_at new) used 2 ch.tail r.tail_inside r.used_fits,
            same_before,
            r.span,
            two_more,
          )
          (ap (λ fs. fs ++ (frame ∷ [])) (sym (frames-used ch used r)))

full_ring :
    (ch : Channel) (used : ℕ)
    → IsRing ch used
    → is_some (skb_at ch (next (size ch) ch.head)) ≡ true
    → leb (used + 2) (size ch) ≡ false
full_ring ch used r e = elim (Bool-cases (leb (used + 2) (size ch))) [
  | inr f ↦ f
  | inl f ↦
      let lt = r.head_inside in
      let lt' = r.tail_inside in
      let ends = r.span in
      let far : used ≤ dist (size ch) ch.tail (next (size ch) ch.head) = ground arith in
      let empty : skb_at ch (next (size ch) ch.head) ≡ none =
        r.free (next (size ch) ch.head) (ground arith) far in
      absurd (true≢false (sym e ∙ ap is_some empty))
]

is_some-false : (o : Option Skb) → is_some o ≡ false → o ≡ none
is_some-false none e = refl
is_some-false (some a) e = absurd (ground arith)

-- On a well-formed ring a frame is taken when two blocks are free, and otherwise the queues stop: the
-- driver's other error never comes.
pub tx_frame_lem :
    (frame : Skb) (is_low bmps : Bool) (s : Tx) (used : ℕ)
    → IsRing s.ch used
    → tx_frame frame is_low bmps s ≡ (
        if leb (used + 2) (size s.ch)
        then (
          ok,
          record s { ch = after_tx frame s.ch; calls = s.calls ++ (notify is_low bmps s.ch ∷ []) },
        )
        else (err ebusy, record s { queues_stopped = true; calls = s.calls ++ (stop_queues ∷ []) }))
unfolding tx_frame notify put_skb put_bd update
tx_frame_lem frame is_low bmps s used r =
    let ch = s.ch in
    let next_skb = skb_at ch (next (size ch) ch.head) in
    let lt = r.head_inside in
    let odd : next (size ch) ch.head % 2 ≡ 1 = ground (arith, r.even_size, r.even_head) in
    elim (Bool-cases (is_some next_skb)) [
      | inl e ↦
          let full : leb (used + 2) (size ch) ≡ false = full_ring ch used r e in rw (e, full) refl
      | inr e ↦
          let fits = room ch used r (is_some-false next_skb e) in
          let space : leb (used + 2) (size ch) ≡ true = ground (arith, fits) in
          let no_bd : bd_at ch (next (size ch) ch.head) ≡ false =
            r.bds (next (size ch) ch.head) (ground arith) ∙ ground (arith, odd) in
          rw (e, space, started_bd frame ch r.not_small lt ∙ no_bd) refl
    ]
