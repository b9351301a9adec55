-- ===== src/Dxe/Ctl/All.antt =====
-- The control blocks of all four channels, allocated and freed in the same order.
use wcn36xx.Common.{
  ◌≡◌, refl, sym, ap, ◌∙◌, inl, Option, some, List, [], ◌∷◌, ◌++◌, length, Ret, ok, arith,
}
use wcn36xx.Dxe.State.{Event, smsm_change_state}
use wcn36xx.Dxe.Ctl.{
  Ptr, Cells, Mem, CtlCh, ◌>>=◌, pure, free_ctl_block, unless_failed, after_tx_l,
  allocate_ctl_block, Channels, free_ctl_blks, alloc_ctl_blks, desc_nums,
}
use wcn36xx.Dxe.Ctl.Chain.{
  Distinct, Unused, linked_up, freed, Linked, linked_up-Linked, free_loop-freed, freed-linked_up,
}
use wcn36xx.Dxe.Ctl.Allocate.{heap, then_step}
use wcn36xx.Dxe.Ctl.Restored.{with_head, allocate_ctl_block-free_ctl_block}
use wcn36xx.Dxe.Ctl.Apart.{
  Unused-past, Linked-past, Apart, Distinct-append, Unused-append, Apart-append, Apart-sym,
  freed_past,
}

-- The addresses of a channel's blocks.
pub record Addrs : Type 0 where
  pub p : Ptr
  pub q : Ptr
  pub more : List Ptr

abbrev pub all : Addrs → List Ptr
all a = a.p ∷ a.q ∷ a.more

abbrev pub ring : Addrs → Cells → Cells
ring a c = linked_up 0 (all a) a.p c

freed_one :
    (a : Addrs) (ch : CtlCh) (c c' : Cells) (rest : List Ptr)
    → length (all a) ≡ ch.desc_num
    → Distinct (all a)
    → Linked c 0 (all a) a.p
    → freed (all a) c ≡ c'
    → free_ctl_block (with_head a.p ch) (heap c rest) ≡ some (tt, heap c' rest)
unfolding free_ctl_block
freed_one a ch c c' rest n d l e =
    free_loop-freed ch.desc_num 0 (all a) a.p (heap c rest) l d (omega arith) (inl (sym n))
    ∙ ap (λ x. some (tt, heap x rest)) e

one_allocated :
    (a : Addrs) (ch : CtlCh) (c : Cells) (rest : List Ptr)
    → length (all a) ≡ ch.desc_num
    → Distinct (all a)
    → Unused c (all a)
    → allocate_ctl_block ch (heap c (all a ++ rest))
      ≡ some ((ok, with_head a.p ch), heap (ring a c) rest)
one_allocated a ch c rest n d u =
    (allocate_ctl_block-free_ctl_block a.p a.q a.more rest c ch n d u).0

-- Freeing a ring that others were built after.
past_one :
    (a b : Addrs) (c : Cells)
    → Apart (all a) (all b)
    → freed (all a) (ring b c) ≡ ring b (freed (all a) c)
past_one a b c apart = freed_past (all a) 0 (all b) b.p c apart

-- Memory for all the blocks, at different addresses that are not in use.
pub record Memory (c : Cells) (w x y z : Addrs) : Type 0 where
  pub tx_l_count : length (all w) ≡ 128
  pub tx_h_count : length (all x) ≡ 10
  pub rx_l_count : length (all y) ≡ 512
  pub rx_h_count : length (all z) ≡ 40
  pub distinct : Distinct (all w ++ (all x ++ (all y ++ all z)))
  pub unused : Unused c (all w ++ (all x ++ (all y ++ all z)))

-- The channels with their blocks.
abbrev pub with_heads : Addrs → Addrs → Addrs → Addrs → Channels → Channels
with_heads w x y z chans = record {
  tx_l = with_head w.p (desc_nums chans).tx_l;
  tx_h = with_head x.p (desc_nums chans).tx_h;
  rx_l = with_head y.p (desc_nums chans).rx_l;
  rx_h = with_head z.p (desc_nums chans).rx_h;
}

abbrev pub rings : Addrs → Addrs → Addrs → Addrs → Cells → Cells
rings w x y z c = ring z (ring y (ring x (ring w c)))

abbrev pub addresses : Addrs → Addrs → Addrs → Addrs → List Ptr → List Ptr
addresses w x y z rest = all w ++ (all x ++ (all y ++ (all z ++ rest)))

-- The rest of the allocation after the second and after the third channel.
abbrev after_rx_l : Channels → Mem → Option ((Ret × Channels × List Event) × Mem)
after_rx_l w3 = do
  (r4, c4) ← allocate_ctl_block w3.rx_h
  let w4 = record w3 { rx_h = c4 }
  unless_failed r4 w4 (pure (ok, w4, smsm_change_state 0x400 0x200 ∷ []))

abbrev after_tx_h : Channels → Mem → Option ((Ret × Channels × List Event) × Mem)
after_tx_h w2 = do
  (r3, c3) ← allocate_ctl_block w2.rx_l
  let w3 = record w2 { rx_l = c3 }
  unless_failed r3 w3 (after_rx_l w3)

module _ (c : Cells) (w x y z : Addrs) (rest : List Ptr) (chans : Channels)
    (m : Memory c w x y z) where
  abbrev pub c4 : Cells
  c4 = rings w x y z c

  abbrev pub offered : List Ptr
  offered = addresses w x y z rest

  record Facts : Type 0 where
    dw : Distinct (all w)
    dx : Distinct (all x)
    dy : Distinct (all y)
    dz : Distinct (all z)
    wx : Apart (all w) (all x)
    wy : Apart (all w) (all y)
    wz : Apart (all w) (all z)
    xy : Apart (all x) (all y)
    xz : Apart (all x) (all z)
    yz : Apart (all y) (all z)
    uw : Unused c (all w)
    ux : Unused c (all x)
    uy : Unused c (all y)
    uz : Unused c (all z)

  facts : Facts
  facts =
      let (d1, a1, r1) = Distinct-append (all w) (all x ++ (all y ++ all z)) m.distinct in
      let (d2, a2, r2) = Distinct-append (all x) (all y ++ all z) r1 in
      let (d3, a3, d4) = Distinct-append (all y) (all z) r2 in
      let (w_x, w_yz) = Apart-append (all w) (all x) (all y ++ all z) a1 in
      let (w_y, w_z) = Apart-append (all w) (all y) (all z) w_yz in
      let (x_y, x_z) = Apart-append (all x) (all y) (all z) a2 in
      let (u1, s1) = Unused-append c (all w) (all x ++ (all y ++ all z)) m.unused in
      let (u2, s2) = Unused-append c (all x) (all y ++ all z) s1 in
      let (u3, u4) = Unused-append c (all y) (all z) s2 in
      record {
        dw = d1;
        dx = d2;
        dy = d3;
        dz = d4;
        wx = w_x;
        wy = w_y;
        wz = w_z;
        xy = x_y;
        xz = x_z;
        yz = a3;
        uw = u1;
        ux = u2;
        uy = u3;
        uz = u4;
      }

  allocated :
      Facts
      → alloc_ctl_blks chans (heap c offered)
        ≡ some ((ok, with_heads w x y z chans, smsm_change_state 0x400 0x200 ∷ []), heap c4 rest)
  unfolding alloc_ctl_blks after_tx_l desc_nums
  allocated f =
      let ux' = Unused-past 0 (all w) w.p (all x) c (Apart-sym (all w) (all x) f.wx) f.ux in
      let uy1 = Unused-past 0 (all w) w.p (all y) c (Apart-sym (all w) (all y) f.wy) f.uy in
      let uy' = Unused-past 0 (all x) x.p (all y) (ring w c) (Apart-sym (all x) (all y) f.xy) uy1 in
      let uz1 = Unused-past 0 (all w) w.p (all z) c (Apart-sym (all w) (all z) f.wz) f.uz in
      let uz2 = Unused-past 0 (all x) x.p (all z) (ring w c) (Apart-sym (all x) (all z) f.xz) uz1 in
      let uz' =
        Unused-past 0 (all y) y.p (all z) (ring x (ring w c)) (Apart-sym (all y) (all z) f.yz)
          uz2 in
      let e1 =
        one_allocated w (desc_nums chans).tx_l c (all x ++ (all y ++ (all z ++ rest))) m.tx_l_count
          f.dw f.uw in
      let e2 =
        one_allocated x (desc_nums chans).tx_h (ring w c) (all y ++ (all z ++ rest)) m.tx_h_count
          f.dx ux' in
      let e3 =
        one_allocated y (desc_nums chans).rx_l (ring x (ring w c)) (all z ++ rest) m.rx_l_count f.dy
          uy' in
      let e4 =
        one_allocated z (desc_nums chans).rx_h (ring y (ring x (ring w c))) rest m.rx_h_count f.dz
          uz' in
      let w0 = desc_nums chans in
      let w1 : Channels = record w0 { tx_l = with_head w.p w0.tx_l } in
      let w2 : Channels = record w1 { tx_h = with_head x.p w0.tx_h } in
      let w3 : Channels = record w2 { rx_l = with_head y.p w0.rx_l } in
      then_step (allocate_ctl_block w0.tx_l (heap c offered))
        (λ (r : Ret × CtlCh).
          unless_failed r.0 (record w0 { tx_l = r.1 }) (after_tx_l (record w0 { tx_l = r.1 })))
        (ok, with_head w.p w0.tx_l) (heap (ring w c) (all x ++ (all y ++ (all z ++ rest)))) e1
      ∙ then_step
          (allocate_ctl_block w1.tx_h (heap (ring w c) (all x ++ (all y ++ (all z ++ rest)))))
          (λ (r : Ret × CtlCh).
            unless_failed r.0 (record w1 { tx_h = r.1 }) (after_tx_h (record w1 { tx_h = r.1 })))
          (ok, with_head x.p w0.tx_h) (heap (ring x (ring w c)) (all y ++ (all z ++ rest))) e2
      ∙ then_step (allocate_ctl_block w2.rx_l (heap (ring x (ring w c)) (all y ++ (all z ++ rest))))
          (λ (r : Ret × CtlCh).
            unless_failed r.0 (record w2 { rx_l = r.1 }) (after_rx_l (record w2 { rx_l = r.1 })))
          (ok, with_head y.p w0.rx_l) (heap (ring y (ring x (ring w c))) (all z ++ rest)) e3
      ∙ then_step (allocate_ctl_block w3.rx_h (heap (ring y (ring x (ring w c))) (all z ++ rest)))
          (λ (r : Ret × CtlCh).
            unless_failed r.0 (record w3 { rx_h = r.1 })
              (pure (ok, record w3 { rx_h = r.1 }, smsm_change_state 0x400 0x200 ∷ [])))
          (ok, with_head z.p w0.rx_h) (heap c4 rest) e4

  released :
      Facts → free_ctl_blks (with_heads w x y z chans) (heap c4 rest) ≡ some (tt, heap c rest)
  unfolding free_ctl_blks desc_nums
  released f =
      let cx = ring x c in
      let cy = ring y cx in
      let lw1 =
        Linked-past 0 (all x) x.p 0 (all w) w.p (ring w c) f.wx
          (linked_up-Linked 0 (all w) w.p c f.dw) in
      let lw2 = Linked-past 0 (all y) y.p 0 (all w) w.p (ring x (ring w c)) f.wy lw1 in
      let lw = Linked-past 0 (all z) z.p 0 (all w) w.p (ring y (ring x (ring w c))) f.wz lw2 in
      let fw : freed (all w) c4 ≡ ring z cy =
        past_one w z (ring y (ring x (ring w c))) f.wz
        ∙ ap (ring z) (
            past_one w y (ring x (ring w c)) f.wy
            ∙ ap (ring y) (
                past_one w x (ring w c) f.wx
                ∙ ap (ring x) (freed-linked_up 0 (all w) w.p c f.uw))) in
      let lx1 =
        Linked-past 0 (all y) y.p 0 (all x) x.p cx f.xy (linked_up-Linked 0 (all x) x.p c f.dx) in
      let lx = Linked-past 0 (all z) z.p 0 (all x) x.p cy f.xz lx1 in
      let fx : freed (all x) (ring z cy) ≡ ring z (ring y c) =
        past_one x z cy f.xz
        ∙ ap (ring z) (past_one x y cx f.xy ∙ ap (ring y) (freed-linked_up 0 (all x) x.p c f.ux)) in
      let ly =
        Linked-past 0 (all z) z.p 0 (all y) y.p (ring y c) f.yz
          (linked_up-Linked 0 (all y) y.p c f.dy) in
      let fy : freed (all y) (ring z (ring y c)) ≡ ring z c =
        past_one y z (ring y c) f.yz ∙ ap (ring z) (freed-linked_up 0 (all y) y.p c f.uy) in
      let e1 = freed_one w (desc_nums chans).tx_l c4 (ring z cy) rest m.tx_l_count f.dw lw fw in
      let e2 =
        freed_one x (desc_nums chans).tx_h (ring z cy) (ring z (ring y c)) rest m.tx_h_count f.dx lx
          fx in
      let e3 =
        freed_one y (desc_nums chans).rx_l (ring z (ring y c)) (ring z c) rest m.rx_l_count f.dy ly
          fy in
      let e4 =
        freed_one z (desc_nums chans).rx_h (ring z c) c rest m.rx_h_count f.dz
          (linked_up-Linked 0 (all z) z.p c f.dz) (freed-linked_up 0 (all z) z.p c f.uz) in
      rw (e1, e2, e3, e4) refl

  -- With memory for the 690 blocks, at different addresses that are not in use: the call returns 0,
  -- and freeing the blocks of the four channels gives the heap before.
  pub alloc_ctl_blks-free_ctl_blks :
      (alloc_ctl_blks chans (heap c offered)
        ≡ some ((ok, with_heads w x y z chans, smsm_change_state 0x400 0x200 ∷ []), heap c4 rest))
      × (free_ctl_blks (with_heads w x y z chans) (heap c4 rest) ≡ some (tt, heap c rest))
  alloc_ctl_blks-free_ctl_blks = (allocated facts, released facts)
