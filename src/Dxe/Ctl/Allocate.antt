-- ===== src/Dxe/Ctl/Allocate.antt =====
-- `wcn36xx_dxe_allocate_ctl_block` with and without memory.
use wcn36xx.Common.{
  ℕ, zero, suc, ◌+◌, ◌-◌, ◌≤◌, ◌<◌, ◌≡◌, ◌≢◌, refl, ap, ◌∙◌, inl, inr, true, false, Bool-cases,
  ==_iff, ◌==◌, Option, some, List, [], ◌∷◌, ◌++◌, length, Ret, ok, arith,
}
use mathlib.Core.Path.{fun_ext}
use wcn36xx.Dxe.Ctl.{
  Ptr, null, Ctl, ctl, Cells, Mem, write, kzalloc_from, kzalloc, load, set_order, set_next, M,
  and_then, CtlCh, link_block, out_fail, allocate_loop,
}
use wcn36xx.Dxe.Ctl.Chain.{mem, Distinct, first, linked_up, write_ne, write_self, or_false}

abbrev pub heap : Cells → List Ptr → Mem
heap c ps = record { cells = c; kzallocs = ps }

-- What the commands do where they do not fault.
kzalloc_lem :
    (q : Ptr) (ps : List Ptr) (c : Cells)
    → q ≢ null
    → kzalloc (heap c (q ∷ ps)) ≡ some (q, heap (write c q (some (ctl 0 null))) ps)
unfolding kzalloc kzalloc_from
kzalloc_lem q ps c live = let alive : (q == null) ≡ false = ground arith in rw alive refl

set_order_lem :
    (p i : ℕ) (x : Ctl) (m : Mem)
    → m.cells p ≡ some x
    → set_order p i m ≡ some (tt, record m { cells = write m.cells p (some (ctl i x.next)) })
unfolding set_order load
set_order_lem p i x m has = rw has refl

set_next_lem :
    (p q : Ptr) (x : Ctl) (m : Mem)
    → m.cells p ≡ some x
    → set_next p q m ≡ some (tt, record m { cells = write m.cells p (some (ctl x.order q)) })
unfolding set_next load
set_next_lem p q x m has = rw has refl

pub then_step :
    {A B : Type 0} (r : Option (A × Mem)) (f : A → M B) (a : A) (m : Mem)
    → r ≡ some (a, m)
    → and_then r f ≡ f a m
then_step r f a m e = rw e refl

-- The writes of one round in the order of the code, and in the order of the blocks.
settled :
    (c : Cells) (p q : Ptr) (a b d : Option Ctl)
    → (p == q) ≡ false
    → write (write (write c q a) q b) p d ≡ write (write c p d) q b
settled c p q a b d ne = fun_ext λ x. ground arith

settled_last :
    (c : Cells) (p q : Ptr) (a b d e : Option Ctl)
    → (p == q) ≡ false
    → write (write (write (write c q a) q b) p d) q e ≡ write (write c p d) q e
settled_last c p q a b d e ne = fun_ext λ x. ground arith

pub overwritten : (c : Cells) (q : Ptr) (a b : Option Ctl) → write (write c q a) q b ≡ write c q b
overwritten c q a b = fun_ext λ x. ground arith

module _ (k i o : ℕ) (prev q : Ptr) (ps : List Ptr) (c : Cells) (ch : CtlCh) (live : q ≢ null) where
  -- The heap when the new block has its number.
  abbrev numbered : Mem
  numbered = heap (write (write c q (some (ctl 0 null))) q (some (ctl i null))) ps

  abbrev go_on : CtlCh → Mem → Option ((Ret × CtlCh) × Mem)
  go_on ch' m = allocate_loop k (suc i) q ch' m

  one_round :
      allocate_loop (suc k) i prev ch (heap c (q ∷ ps))
      ≡ and_then (link_block i prev q ch numbered) go_on
  unfolding allocate_loop
  one_round =
      let alive : (q == null) ≡ false = ground arith in
      let has = write_self c q (some (ctl 0 null)) in
      rw
        (
          kzalloc_lem q ps c live,
          alive,
          set_order_lem q i (ctl 0 null) (heap (write c q (some (ctl 0 null))) ps) has,
        )
        refl

  pub first_round :
      i ≡ 0
      → allocate_loop (suc k) i prev ch (heap c (q ∷ ps))
        ≡ allocate_loop k 1 q
            (record ch { head_blk_ctl = q; tail_blk_ctl = q })
            (heap (write c q (some (ctl 0 null))) ps)
  unfolding link_block
  first_round zeroth =
      one_round ∙ rw (zeroth, overwritten c q (some (ctl 0 null)) (some (ctl 0 null))) refl

  module _ (later : (i == 0) ≡ false) (ne : (prev == q) ≡ false)
      (has : c prev ≡ some (ctl o null)) where
    linked :
        set_next prev q numbered
        ≡ some (tt, record numbered { cells = write numbered.cells prev (some (ctl o q)) })
    linked = set_next_lem prev q (ctl o null) numbered (
        write_ne (write c q (some (ctl 0 null))) q prev (some (ctl i null)) ne
        ∙ write_ne c q prev (some (ctl 0 null)) ne
        ∙ has)

    middle_round :
        (ch.desc_num - 1 == i) ≡ false
        → allocate_loop (suc k) i prev ch (heap c (q ∷ ps))
          ≡ allocate_loop k
              (suc i)
              q
              ch
              (heap (write (write c prev (some (ctl o q))) q (some (ctl i null))) ps)
    unfolding link_block
    middle_round more =
        one_round
        ∙ rw (later, more, linked)
            (ap (λ c'. allocate_loop k (suc i) q ch (heap c' ps))
              (settled c prev q (some (ctl 0 null)) (some (ctl i null)) (some (ctl o q)) ne))

    last_round :
        (ch.desc_num - 1 == i) ≡ true
        → allocate_loop (suc k) i prev ch (heap c (q ∷ ps))
          ≡ allocate_loop k
              (suc i)
              q
              ch
              (heap (write (write c prev (some (ctl o q))) q (some (ctl i ch.head_blk_ctl))) ps)
    unfolding link_block
    last_round last =
        let ne' : (q == prev) ≡ false = ground arith in
        let own : write numbered.cells prev (some (ctl o q)) q ≡ some (ctl i null) =
          write_ne numbered.cells prev q (some (ctl o q)) ne'
          ∙ write_self (write c q (some (ctl 0 null))) q (some (ctl i null)) in
        let closed =
          set_next_lem q ch.head_blk_ctl (ctl i null)
            (record numbered { cells = write numbered.cells prev (some (ctl o q)) }) own in
        one_round
        ∙ rw (later, last, linked, closed)
            (ap (λ c'. allocate_loop k (suc i) q ch (heap c' ps))
              (settled_last c prev q (some (ctl 0 null)) (some (ctl i null)) (some (ctl o q))
                (some (ctl i ch.head_blk_ctl)) ne))

-- The rounds after the first, with memory for all of them.
pub rounds :
    (i o : ℕ) (prev q : Ptr) (qs rest : List Ptr) (c : Cells) (ch : CtlCh)
    → 1 ≤ i
    → i + length (q ∷ qs) ≡ ch.desc_num
    → c prev ≡ some (ctl o null)
    → mem prev (q ∷ qs) ≡ false
    → Distinct (q ∷ qs)
    → allocate_loop (suc (length qs)) i prev ch (heap c (q ∷ (qs ++ rest)))
      ≡ some (
        (ok, ch),
        heap (linked_up i (q ∷ qs) ch.head_blk_ctl (write c prev (some (ctl o q)))) rest,
      )
unfolding linked_up allocate_loop
rounds i o prev q [] rest c ch pos count has apart (nz, fresh, d) =
    let (ne, others) = or_false (prev == q) false apart in
    last_round 0 i o prev q rest c ch nz (ground arith) ne has (ground arith)
rounds i o prev q (q' ∷ qs) rest c ch pos count has apart (nz, fresh, d) =
    let (ne, others) = or_false (prev == q) (mem prev (q' ∷ qs)) apart in
    let c' = write c prev (some (ctl o q)) in
    middle_round (suc (length qs)) i o prev q (q' ∷ (qs ++ rest)) c ch nz (ground arith) ne has
      (ground arith)
    ∙ rounds (suc i) i q q' qs rest (write c' q (some (ctl i null))) ch (omega arith) (omega arith)
        (write_self c' q (some (ctl i null))) fresh d
    ∙ ap (λ x. some ((ok, ch), heap (linked_up (suc i) (q' ∷ qs) ch.head_blk_ctl x) rest))
        (overwritten c' q (some (ctl i null)) (some (ctl i q')))

rewritten : (c : Cells) (p : Ptr) (x : Option Ctl) → c p ≡ x → c ≡ write c p x
rewritten c p x e = fun_ext λ q. elim (Bool-cases (q == p)) [
  | inl f ↦ rw f (ap c ((==_iff q p).0 f) ∙ e)
  | inr f ↦ rw f refl
]

-- The rounds after the first, when the memory ends after `qs`.
pub rounds_short :
    (k i o : ℕ) (prev : Ptr) (qs rest : List Ptr) (c : Cells) (ch : CtlCh)
    → 1 ≤ i
    → i + k ≡ ch.desc_num
    → length qs < k
    → c prev ≡ some (ctl o null)
    → mem prev qs ≡ false
    → Distinct qs
    → allocate_loop k i prev ch (heap c (qs ++ null ∷ rest))
      ≡ out_fail ch (heap (linked_up i qs null (write c prev (some (ctl o (first qs null))))) rest)
unfolding linked_up allocate_loop kzalloc kzalloc_from
rounds_short zero i o prev qs rest c ch pos count short has apart d = absurd (omega arith)
rounds_short (suc k) i o prev [] rest c ch pos count short has apart d =
    ap (λ x. out_fail ch (heap x rest)) (rewritten c prev (some (ctl o null)) has)
rounds_short (suc k) i o prev (q ∷ qs) rest c ch pos count short has apart (nz, fresh, d) =
    let (ne, others) = or_false (prev == q) (mem prev qs) apart in
    let c' = write c prev (some (ctl o q)) in
    middle_round k i o prev q (qs ++ null ∷ rest) c ch nz (ground arith) ne has (ground arith)
    ∙ rounds_short k (suc i) i q qs rest (write c' q (some (ctl i null))) ch (omega arith)
        (omega arith) (omega arith) (write_self c' q (some (ctl i null))) fresh d
    ∙ ap (λ x. out_fail ch (heap (linked_up (suc i) qs null x) rest))
        (overwritten c' q (some (ctl i null)) (some (ctl i (first qs null))))
