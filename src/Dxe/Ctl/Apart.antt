-- ===== src/Dxe/Ctl/Apart.antt =====
-- Addresses of blocks that are not shared, and freeing past blocks at other addresses.
use wcn36xx.Common.{
  ℕ, suc, ◌≡◌, refl, sym, ap, ◌∙◌, false, ◌==◌, Option, none, some, List, [], ◌∷◌, ◌++◌, arith,
}
use mathlib.Core.Path.{fun_ext}
use wcn36xx.Dxe.Ctl.{Ptr, Ctl, ctl, Cells, write}
use wcn36xx.Dxe.Ctl.Chain.{
  mem, Distinct, Unused, first, linked_up, freed, Linked, linked_up_other, or_false,
}

-- No address of the first list is in the second.
abbrev pub Apart : List Ptr → List Ptr → Type 0
Apart [] bs = Unit {0}
Apart (p ∷ as') bs = (mem p bs ≡ false) × Apart as' bs

pub mem-append :
    (q : Ptr) (xs ys : List Ptr)
    → mem q (xs ++ ys) ≡ false
    → (mem q xs ≡ false) × (mem q ys ≡ false)
mem-append q [] ys e = (refl, e)
mem-append q (x ∷ xs) ys e =
    let (ne, rest) = or_false (q == x) (mem q (xs ++ ys)) e in
    let (left, right) = mem-append q xs ys rest in (rw (ne, left) refl, right)

pub Distinct-append :
    (xs ys : List Ptr) → Distinct (xs ++ ys) → Distinct xs × Apart xs ys × Distinct ys
Distinct-append [] ys d = (tt, tt, d)
Distinct-append (x ∷ xs) ys (nz, apart, d) =
    let (left, right) = mem-append x xs ys apart in
    let (dx, a, dy) = Distinct-append xs ys d in ((nz, left, dx), (right, a), dy)

pub Unused-append : (c : Cells) (xs ys : List Ptr) → Unused c (xs ++ ys) → Unused c xs × Unused c ys
Unused-append c [] ys u = (tt, u)
Unused-append c (x ∷ xs) ys (here, u) = let (ux, uy) = Unused-append c xs ys u in ((here, ux), uy)

pub Apart-append : (as' xs ys : List Ptr) → Apart as' (xs ++ ys) → Apart as' xs × Apart as' ys
Apart-append [] xs ys a = (tt, tt)
Apart-append (p ∷ as') xs ys (e, a) =
    let (left, right) = mem-append p xs ys e in
    let (l, r) = Apart-append as' xs ys a in ((left, l), (right, r))

pub Apart-nil : (bs : List Ptr) → Apart bs []
Apart-nil [] = tt
Apart-nil (b ∷ bs) = (refl, Apart-nil bs)

pub Apart-cons :
    (p : Ptr) (as' bs : List Ptr) → mem p bs ≡ false → Apart bs as' → Apart bs (p ∷ as')
Apart-cons p as' [] e a = tt
Apart-cons p as' (b ∷ bs) e (here, a) =
    let (ne, rest) = or_false (p == b) (mem p bs) e in
    let ne' : (b == p) ≡ false = ground arith in (rw (ne', here) refl, Apart-cons p as' bs rest a)

pub Apart-sym : (as' bs : List Ptr) → Apart as' bs → Apart bs as'
Apart-sym [] bs a = Apart-nil bs
Apart-sym (p ∷ as') bs (e, a) = Apart-cons p as' bs e (Apart-sym as' bs a)

-- Chains at other addresses do not touch one another.
module _ (i : ℕ) (bs : List Ptr) (l : Ptr) where
  pub Linked-past :
      (j : ℕ) (as' : List Ptr) (last : Ptr) (c : Cells)
      → Apart as' bs
      → Linked c j as' last
      → Linked (linked_up i bs l c) j as' last
  Linked-past j [] last c a h = tt
  Linked-past j (p ∷ as') last c (e, a) (here, later) =
      (linked_up_other i bs l c p e ∙ here, Linked-past (suc j) as' last c a later)

  pub Unused-past :
      (as' : List Ptr) (c : Cells) → Apart as' bs → Unused c as' → Unused (linked_up i bs l c) as'
  Unused-past [] c a u = tt
  Unused-past (p ∷ as') c (e, a) (here, u) =
      (linked_up_other i bs l c p e ∙ here, Unused-past as' c a u)

pub writes_comm :
    (c : Cells) (p q : Ptr) (a b : Option Ctl)
    → (q == p) ≡ false
    → write (write c q b) p a ≡ write (write c p a) q b
writes_comm c p q a b ne = fun_ext λ x. ground arith

pub linked_up-write :
    (i : ℕ) (bs : List Ptr) (l p : Ptr) (c : Cells)
    → mem p bs ≡ false
    → linked_up i bs l (write c p none) ≡ write (linked_up i bs l c) p none
unfolding linked_up
linked_up-write i [] l p c e = refl
linked_up-write i (b ∷ bs) l p c e =
    let (ne, rest) = or_false (p == b) (mem p bs) e in
    ap (λ (x : Cells). linked_up (suc i) bs l x)
      (writes_comm c b p (some (ctl i (first bs l))) none ne)
    ∙ linked_up-write (suc i) bs l p (write c b (some (ctl i (first bs l)))) rest

pub freed_past :
    (as' : List Ptr) (i : ℕ) (bs : List Ptr) (l : Ptr) (c : Cells)
    → Apart as' bs
    → freed as' (linked_up i bs l c) ≡ linked_up i bs l (freed as' c)
unfolding freed
freed_past [] i bs l c a = refl
freed_past (p ∷ as') i bs l c (e, a) =
    ap (freed as') (sym (linked_up-write i bs l p c e)) ∙ freed_past as' i bs l (write c p none) a
