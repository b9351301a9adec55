-- ===== src/Dxe/Irq/Calls.antt =====
-- The calls that the walks over a channel add: none of them clears an interrupt.
use wcn36xx.Common.{
  ℕ, zero, suc, ◌≡◌, refl, sym, ap, ◌∙◌, inl, inr, Bool, true, false, ◌||◌, Bool-cases, ◌==◌,
  Option, none, some, List, [], ◌∷◌, ◌++◌, append_assoc, append-nil,
}
use mathlib.Core.Path.{subst}
use wcn36xx.Dxe.State.{
  Skb, ChType, tx_l, tx_h, rx_l, rx_h, Event, stop_queues, wake_queues, unmap, free_txskb,
  smsm_change_state, write_register, unmap_from_device, deliver, kfree_skb, block_at, next, valid,
}
use wcn36xx.Dxe.Tx.{Tx, size, free_calls, wake_calls, release_skb, release, reap_loop, reap_tx_dxes}
use wcn36xx.Dxe.Rx.{Rx, fill_from, fill_skb, rearm, rx_one, rx_loop, rx_handle_packets}
use wcn36xx.Dxe.Irq.{int_clr, int_ed_clr}

-- A write to a register that clears interrupts.
abbrev pub is_clear : Event → Bool
is_clear (write_register addr value) = addr == int_clr || addr == int_ed_clr
is_clear (stop_queues) = false
is_clear (wake_queues) = false
is_clear (unmap a f) = false
is_clear (free_txskb f) = false
is_clear (smsm_change_state a b) = false
is_clear (unmap_from_device a) = false
is_clear (deliver f) = false
is_clear (kfree_skb f) = false

abbrev pub NoClear : List Event → Type 0
NoClear [] = Unit {0}
NoClear (e ∷ es) = (is_clear e ≡ false) × NoClear es

NoClear-append : (xs ys : List Event) → NoClear xs → NoClear ys → NoClear (xs ++ ys)
NoClear-append [] ys p q = q
NoClear-append (x ∷ xs) ys (here, p) q = (here, NoClear-append xs ys p q)

-- The calls only grow, by calls that clear no interrupt.
pub record Grows (before after : List Event) : Type 0 where
  pub more : List Event
  pub grown : after ≡ before ++ more
  pub quiet : NoClear more

Grows-nothing : (cs : List Event) → Grows cs cs
Grows-nothing cs = record { more = []; grown = sym (append-nil cs); quiet = tt }

Grows-then : (a b c : List Event) → Grows a b → Grows b c → Grows a c
Grows-then a b c g h = record {
  more = g.more ++ h.more;
  grown = h.grown ∙ ap (λ xs. xs ++ h.more) g.grown ∙ append_assoc a g.more h.more;
  quiet = NoClear-append g.more h.more g.quiet h.quiet;
}

NoClear-free_calls : (f : Skb) → NoClear (free_calls f)
NoClear-free_calls f = elim (Bool-cases f.wants_status) [
  | inl e ↦ rw e tt
  | inr e ↦ rw e (refl, tt)
]

NoClear-wake_calls : (b : Bool) → NoClear (wake_calls b)
NoClear-wake_calls true = (refl, tt)
NoClear-wake_calls false = tt

Grows-release_skb : (i : ℕ) (o : Option Skb) (s : Tx) → Grows s.calls (release_skb i o s).calls
unfolding release_skb
Grows-release_skb i none s = Grows-nothing s.calls
Grows-release_skb i (some f) s =
    let b = block_at s.ch i in
    record {
      more = (unmap b.desc.src_addr_l f ∷ []) ++ (free_calls f ++ wake_calls s.queues_stopped);
      grown = simp append_assoc;
      quiet = (
        refl,
        NoClear-append (free_calls f) (wake_calls s.queues_stopped) (NoClear-free_calls f)
            (NoClear-wake_calls s.queues_stopped),
      );
    }

-- What a walk leaves, if it ends.
abbrev WalkGrows : List Event → Option (ℕ × Tx) → Type 0
WalkGrows cs none = Unit {0}
WalkGrows cs (some (i, s)) = Grows cs s.calls

abbrev RxWalkGrows : List Event → Option (ℕ × Rx) → Type 0
RxWalkGrows cs none = Unit {0}
RxWalkGrows cs (some (i, s)) = Grows cs s.calls

WalkGrows-later :
    (a b : List Event) (r : Option (ℕ × Tx)) → Grows a b → WalkGrows b r → WalkGrows a r
WalkGrows-later a b none g w = tt
WalkGrows-later a b (some (i, s)) g w = Grows-then a b s.calls g w

RxWalkGrows-later :
    (a b : List Event) (r : Option (ℕ × Rx)) → Grows a b → RxWalkGrows b r → RxWalkGrows a r
RxWalkGrows-later a b none g w = tt
RxWalkGrows-later a b (some (i, s)) g w = Grows-then a b s.calls g w

reap_loop-WalkGrows : (fuel i : ℕ) (s : Tx) → WalkGrows s.calls (reap_loop fuel i s)
unfolding reap_loop release
reap_loop-WalkGrows zero i s = tt
reap_loop-WalkGrows (suc fuel) i s =
    let i' = next (size s.ch) i in
    let s' = release i s in
    let one : Grows s.calls s'.calls = Grows-release_skb i (block_at s.ch i).skb s in
    elim (Bool-cases (valid (block_at s.ch i).desc)) [
      | inl v ↦ rw v (Grows-nothing s.calls)
      | inr v ↦ elim (Bool-cases (i' == s.ch.head)) [
        | inl e ↦ rw (v, e) one
        | inr e ↦ elim (Bool-cases (valid (block_at s'.ch i').desc)) [
          | inl w ↦ rw (v, e, w) one
          | inr w ↦
              rw (v, e, w)
                (WalkGrows-later s.calls s'.calls (reap_loop fuel i' s') one
                  (reap_loop-WalkGrows fuel i' s'))
        ]
      ]
    ]

fill_from-calls : (os : List (Option Skb)) (i : ℕ) (s : Rx) → (fill_from os i s).1.calls ≡ s.calls
unfolding fill_from
fill_from-calls [] i s = refl
fill_from-calls (none ∷ os) i s = refl
fill_from-calls (some f ∷ os) i s = refl

Grows-rearm : (t : ChType) (i : ℕ) (s : Rx) → Grows s.calls (rearm t i s).calls
unfolding rearm
Grows-rearm tx_l i s = Grows-nothing s.calls
Grows-rearm tx_h i s = Grows-nothing s.calls
Grows-rearm rx_l i s = record {
  more = write_register 0x202004 2 ∷ [];
  grown = refl;
  quiet = (refl, tt);
}
Grows-rearm rx_h i s = record {
  more = write_register 0x202004 8 ∷ [];
  grown = refl;
  quiet = (refl, tt);
}

Grows-rx_one : (i : ℕ) (s : Rx) → Grows s.calls (rx_one i s).calls
unfolding rx_one fill_skb
Grows-rx_one i s =
    let filled = (fill_skb i s).1 in
    let armed = rearm s.ch.ch_type i filled in
    let b = block_at s.ch i in
    let g : Grows s.calls armed.calls =
      subst (λ cs. Grows cs armed.calls) (fill_from-calls s.skbs i s)
        (Grows-rearm s.ch.ch_type i filled) in
    Grows-then s.calls armed.calls (rx_one i s).calls g (record {
      more = unmap_from_device b.desc.dst_addr_l ∷ deliver b.skb ∷ [];
      grown = refl;
      quiet = (refl, (refl, tt));
    })

rx_loop-RxWalkGrows : (fuel i : ℕ) (s : Rx) → RxWalkGrows s.calls (rx_loop fuel i s)
unfolding rx_loop
rx_loop-RxWalkGrows zero i s = tt
rx_loop-RxWalkGrows (suc fuel) i s = elim (Bool-cases (valid (block_at s.ch i).desc)) [
  | inl v ↦ rw v (Grows-nothing s.calls)
  | inr v ↦ rw v (
      RxWalkGrows-later s.calls (rx_one i s).calls (rx_loop fuel (next (size s.ch) i) (rx_one i s))
        (Grows-rx_one i s) (rx_loop-RxWalkGrows fuel (next (size s.ch) i) (rx_one i s)))
]

abbrev pub TxGrows : List Event → Option Tx → Type 0
TxGrows cs none = Unit {0}
TxGrows cs (some s) = Grows cs s.calls

abbrev pub RxGrows : List Event → Option Rx → Type 0
RxGrows cs none = Unit {0}
RxGrows cs (some s) = Grows cs s.calls

pub reap_tx_dxes-TxGrows : (s : Tx) → TxGrows s.calls (reap_tx_dxes s)
unfolding reap_tx_dxes
reap_tx_dxes-TxGrows s =
    by_walk (reap_loop (size s.ch) s.ch.tail s) (reap_loop-WalkGrows (size s.ch) s.ch.tail s)
  where
    by_walk :
        (r : Option (ℕ × Tx))
        → WalkGrows s.calls r
        → TxGrows s.calls (elim r [
          | none ↦ none
          | some (ctl, s') ↦ some (record s' { ch = record s'.ch { tail = ctl } })
        ])
    by_walk none w = tt
    by_walk (some (ctl, s')) w = w

pub rx_handle_packets-RxGrows : (s : Rx) → RxGrows s.calls (rx_handle_packets s)
unfolding rx_handle_packets
rx_handle_packets-RxGrows s =
    by_walk (rx_loop (suc (size s.ch)) s.ch.head s)
      (rx_loop-RxWalkGrows (suc (size s.ch)) s.ch.head s)
  where
    by_walk :
        (r : Option (ℕ × Rx))
        → RxWalkGrows s.calls r
        → RxGrows s.calls (elim r [
          | none ↦ none
          | some (ctl, s') ↦ some (record s' { ch = record s'.ch { head = ctl } })
        ])
    by_walk none w = tt
    by_walk (some (ctl, s')) w = w
