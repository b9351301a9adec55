-- ===== src/Dxe/Ctl/Chain.antt =====
-- Chains of control blocks: the heap that holds one, and the heap after the walk that frees it.
use wcn36xx.Common.{
  ℕ, zero, suc, ◌≤◌, ◌≡◌, ◌≢◌, ◌⊎◌, refl, sym, ap, ◌∙◌, inl, inr, Bool, true, false, ◌||◌,
  Bool-cases, ==_iff, ==_refl, ◌==◌, if◌then◌else◌, Option, none, some, List, [], ◌∷◌, length,
  arith,
}
use mathlib.Core.Path.{fun_ext}
use wcn36xx.Dxe.Ctl.{Ptr, null, Ctl, ctl, Cells, Mem, write, load, kfree, free_loop}

abbrev pub mem : Ptr → List Ptr → Bool
mem q [] = false
mem q (p ∷ ps) = (q == p) || mem q ps

-- Addresses that are not null, all different.
abbrev pub Distinct : List Ptr → Type 0
Distinct [] = Unit {0}
Distinct (p ∷ ps) = (p ≢ null) × (mem p ps ≡ false) × Distinct ps

-- Addresses that are not allocated.
abbrev pub Unused : Cells → List Ptr → Type 0
Unused c [] = Unit {0}
Unused c (p ∷ ps) = (c p ≡ none) × Unused c ps

abbrev pub first : List Ptr → Ptr → Ptr
first [] last = last
first (p ∷ ps) last = p

-- The heap with a chain of blocks, numbered from `i`, whose last one points to `last`.
unfoldable pub linked_up : ℕ → List Ptr → Ptr → Cells → Cells
linked_up i [] last c = c
linked_up i (p ∷ ps) last c = linked_up (suc i) ps last (write c p (some (ctl i (first ps last))))

-- The heap without the blocks.
unfoldable pub freed : List Ptr → Cells → Cells
freed [] c = c
freed (p ∷ ps) c = freed ps (write c p none)

abbrev pub Linked : Cells → ℕ → List Ptr → Ptr → Type 0
Linked c i [] last = Unit {0}
Linked c i (p ∷ ps) last = (c p ≡ some (ctl i (first ps last))) × Linked c (suc i) ps last

pub write_ne : (c : Cells) (p q : Ptr) (o : Option Ctl) → (q == p) ≡ false → write c p o q ≡ c q
write_ne c p q o e = rw e refl

pub write_self : (c : Cells) (p : Ptr) (o : Option Ctl) → write c p o p ≡ o
write_self c p o = rw (==_refl p) refl

pub or_false : (a b : Bool) → (a || b) ≡ false → (a ≡ false) × (b ≡ false)
or_false false b e = (refl, e)
or_false true b e = absurd (ground arith)

pub linked_up_other :
    (i : ℕ) (ps : List Ptr) (last : Ptr) (c : Cells) (q : Ptr)
    → mem q ps ≡ false
    → linked_up i ps last c q ≡ c q
unfolding linked_up
linked_up_other i [] last c q e = refl
linked_up_other i (p ∷ ps) last c q e =
    let (ne, rest) = or_false (q == p) (mem q ps) e in
    linked_up_other (suc i) ps last (write c p (some (ctl i (first ps last)))) q rest
    ∙ write_ne c p q (some (ctl i (first ps last))) ne

pub linked_up-Linked :
    (i : ℕ) (ps : List Ptr) (last : Ptr) (c : Cells)
    → Distinct ps
    → Linked (linked_up i ps last c) i ps last
unfolding linked_up
linked_up-Linked i [] last c d = tt
linked_up-Linked i (p ∷ ps) last c (nz, apart, d) =
    let c' = write c p (some (ctl i (first ps last))) in
    (
      linked_up_other (suc i) ps last c' p apart ∙ write_self c p (some (ctl i (first ps last))),
      linked_up-Linked (suc i) ps last c' d,
    )

-- A write elsewhere keeps a chain.
write-Linked :
    (c : Cells) (q : Ptr) (o : Option Ctl) (i : ℕ) (ps : List Ptr) (last : Ptr)
    → mem q ps ≡ false
    → Linked c i ps last
    → Linked (write c q o) i ps last
write-Linked c q o i [] last e l = tt
write-Linked c q o i (p ∷ ps) last e (here, later) =
    let (ne, rest) = or_false (q == p) (mem q ps) e in
    let ne' : (p == q) ≡ false = ground arith in
    (write_ne c q p o ne' ∙ here, write-Linked c q o (suc i) ps last rest later)

-- The walk frees the chain: it stops at its count, or at the null pointer behind the last block.
pub free_loop-freed :
    (k i : ℕ) (ps : List Ptr) (last : Ptr) (m : Mem)
    → Linked m.cells i ps last
    → Distinct ps
    → length ps ≤ k
    → (k ≡ length ps) ⊎ (last ≡ null)
    → free_loop k (first ps last) m ≡ some (tt, record m { cells = freed ps m.cells })
unfolding free_loop freed load kfree
free_loop-freed zero i [] last m l d le end = refl
free_loop-freed zero i (p ∷ ps) last m l d le end = absurd (omega arith)
free_loop-freed (suc k) i [] last m l d le (inl e) = absurd (omega arith)
free_loop-freed (suc k) i [] last m l d le (inr e) = rw e refl
free_loop-freed (suc k) i (p ∷ ps) last m (here, later) (nz, apart, d) le end =
    let live : (p == null) ≡ false = ground arith in
    rw (live, here, here)
      (free_loop-freed k (suc i) ps last (record m { cells = write m.cells p none })
        (write-Linked m.cells p none (suc i) ps last apart later) d (omega arith) (shorter end))
  where
    shorter : (suc k ≡ length (p ∷ ps)) ⊎ (last ≡ null) → (k ≡ length ps) ⊎ (last ≡ null)
    shorter (inl e) = inl (omega arith)
    shorter (inr e) = inr e

freed-at : (ps : List Ptr) (c : Cells) (q : Ptr) → freed ps c q ≡ (if mem q ps then none else c q)
unfolding freed
freed-at [] c q = refl
freed-at (p ∷ ps) c q = freed-at ps (write c p none) q ∙ both (q == p) (mem q ps)
  where
    both :
        (a b : Bool)
        → (if b then none else (if a then none else c q)) ≡ (if a || b then none else c q)
    both true true = refl
    both true false = refl
    both false true = refl
    both false false = refl

Unused-at : (c : Cells) (ps : List Ptr) (q : Ptr) → Unused c ps → mem q ps ≡ true → c q ≡ none
Unused-at c [] q u e = absurd (ground arith)
Unused-at c (p ∷ ps) q (here, later) e = elim (Bool-cases (q == p)) [
  | inl f ↦ ap c ((==_iff q p).0 f) ∙ here
  | inr f ↦ Unused-at c ps q later (rw f at e)
]

-- Freeing a chain that was built on unused addresses gives the heap before it was built.
pub freed-linked_up :
    (i : ℕ) (ps : List Ptr) (last : Ptr) (c : Cells)
    → Unused c ps
    → freed ps (linked_up i ps last c) ≡ c
freed-linked_up i ps last c u = fun_ext λ q.
    freed-at ps (linked_up i ps last c) q ∙ elim (Bool-cases (mem q ps)) [
      | inl e ↦ rw e (sym (Unused-at c ps q u e))
      | inr e ↦ rw e (linked_up_other i ps last c q e)
    ]
