-- ===== src/Dxe/Ctl.antt =====
-- The control blocks on the heap: `wcn36xx_dxe_allocate_ctl_block`, `wcn36xx_dxe_free_ctl_block` and
-- the loops over the four channels.
pub mod Chain
pub mod Allocate
pub mod Restored
pub mod Apart
pub mod All
mod Tests
use wcn36xx.Common.{
  ℕ, zero, suc, ◌+◌, ◌-◌, ◌==◌, if◌then◌else◌, Option, none, some, List, [], ◌∷◌, ◌++◌, Ret, ok,
  err, enomem, failed,
}
use wcn36xx.Dxe.State.{Event, smsm_change_state}

abbrev pub Ptr : Type 0
Ptr = ℕ

abbrev pub null : Ptr
null = 0

-- The fields of `struct wcn36xx_dxe_ctl` that are set here.
pub record Ctl : Type 0 where
  pub order : ℕ
  pub next : Ptr

abbrev pub ctl : ℕ → Ptr → Ctl
ctl i p = record { order = i; next = p }

abbrev pub Cells : Type 0
Cells = Ptr → Option Ctl

-- The blocks that are allocated, and the addresses that the coming calls of `kzalloc` give; a null
-- pointer, or none at all, is a call without memory.
pub record Mem : Type 0 where
  pub cells : Cells
  pub kzallocs : List Ptr

abbrev pub write : Cells → Ptr → Option Ctl → Cells
write c p o q = if q == p then o else c q

-- `none` is a read, a write or a free of memory that is not allocated.
abbrev pub M : Type 0 → Type 0
M A = Mem → Option (A × Mem)

abbrev pub pure : {A : Type 0} → A → M A
pure a m = some (a, m)

abbrev pub and_then : {A B : Type 0} → Option (A × Mem) → (A → M B) → Option (B × Mem)
and_then none f = none
and_then (some (a, m)) f = f a m

infixl 5 ◌>>=◌ ◌>>◌
abbrev pub ◌>>=◌ : {A B : Type 0} → M A → (A → M B) → M B
◌>>=◌ x f m = and_then (x m) f

abbrev pub ◌>>◌ : {B : Type 0} → M (Unit {0}) → M B → M B
x >> y = x >>= λ _. y

unfoldable pub kzalloc_from : List Ptr → M Ptr
kzalloc_from [] m = some (null, m)
kzalloc_from (p ∷ ps) m =
    if p == null
    then some (null, record m { kzallocs = ps })
    else some (p, record { cells = write m.cells p (some (ctl 0 null)); kzallocs = ps })

unfoldable pub kzalloc : M Ptr
unfolding kzalloc_from
kzalloc m = kzalloc_from m.kzallocs m

abbrev pub store : Ptr → Option Ctl → M (Unit {0})
store p o m = some (tt, record m { cells = write m.cells p o })

abbrev pub found : Option Ctl → M Ctl
found none m = none
found (some c) m = some (c, m)

unfoldable pub load : Ptr → M Ctl
load p m = found (m.cells p) m

-- `p->ctl_blk_order = i` and `p->next = q`
unfoldable pub set_order : Ptr → ℕ → M (Unit {0})
unfolding load
set_order p i = do c ← load p; store p (some (record c { order = i }))

unfoldable pub set_next : Ptr → Ptr → M (Unit {0})
unfolding load
set_next p q = do c ← load p; store p (some (record c { next = q }))

unfoldable pub kfree : Ptr → M (Unit {0})
unfolding load
kfree p = do c ← load p; store p none

-- The fields of `struct wcn36xx_dxe_ch` that are used here.
pub record CtlCh : Type 0 where
  pub desc_num : ℕ
  pub head_blk_ctl : Ptr
  pub tail_blk_ctl : Ptr

-- The loop ends at a null pointer too.
unfoldable pub free_loop : ℕ → Ptr → M (Unit {0})
unfolding load kfree
free_loop zero p = pure tt
free_loop (suc k) p = λ m.
    let rest = λ (c : Ctl). free_loop k c.next in
    if p == null then some (tt, m) else (do c ← load p; kfree p; rest c) m

unfoldable pub free_ctl_block : CtlCh → M (Unit {0})
unfolding free_loop
free_ctl_block ch = free_loop ch.desc_num ch.head_blk_ctl

-- The pointers that the new block `cur` of number `i` gets and is given.
unfoldable pub link_block : ℕ → Ptr → Ptr → CtlCh → M CtlCh
unfolding set_next
link_block i prev cur ch =
    if i == 0
    then pure (record ch { head_blk_ctl = cur; tail_blk_ctl = cur })
    else if ch.desc_num - 1 == i
    then (do set_next prev cur; set_next cur ch.head_blk_ctl; pure ch)
    else (do set_next prev cur; pure ch)

unfoldable pub out_fail : CtlCh → M (Ret × CtlCh)
unfolding free_ctl_block
out_fail ch = do free_ctl_block ch; pure (err enomem, ch)

-- `k` rounds from the `i`-th. The channel is given back with what was written to it.
unfoldable pub allocate_loop : ℕ → ℕ → Ptr → CtlCh → M (Ret × CtlCh)
unfolding kzalloc set_order link_block out_fail
allocate_loop zero i prev ch = pure (ok, ch)
allocate_loop (suc k) i prev ch = do
  cur ← kzalloc
  let rest = do set_order cur i; ch' ← link_block i prev cur ch; allocate_loop k (suc i) cur ch'
  if cur == null then out_fail ch else rest

unfoldable pub allocate_ctl_block : CtlCh → M (Ret × CtlCh)
unfolding allocate_loop
allocate_ctl_block ch = allocate_loop ch.desc_num 0 null ch

-- The four channels.
pub record Channels : Type 0 where
  pub tx_l : CtlCh
  pub tx_h : CtlCh
  pub rx_l : CtlCh
  pub rx_h : CtlCh

unfoldable pub free_ctl_blks : Channels → M (Unit {0})
unfolding free_ctl_block
free_ctl_blks w = do
  free_ctl_block w.tx_l
  free_ctl_block w.tx_h
  free_ctl_block w.rx_l
  free_ctl_block w.rx_h

unfoldable pub out_err : Channels → M (Ret × Channels × List Event)
unfolding free_ctl_blks
out_err w = do free_ctl_blks w; pure (err enomem, w, [])

-- `if (ret) goto out_err`, and the next call.
abbrev pub unless_failed :
    Ret → Channels → M (Ret × Channels × List Event) → M (Ret × Channels × List Event)
unless_failed r w rest = if failed r then out_err w else rest

-- The numbers of blocks, set before the first call.
unfoldable pub desc_nums : Channels → Channels
desc_nums w = record {
  tx_l = record w.tx_l { desc_num = 128 };
  tx_h = record w.tx_h { desc_num = 10 };
  rx_l = record w.rx_l { desc_num = 512 };
  rx_h = record w.rx_h { desc_num = 40 };
}

-- The channels after the first.
unfoldable pub after_tx_l : Channels → M (Ret × Channels × List Event)
unfolding allocate_ctl_block out_err
after_tx_l w1 = do
  (r2, c2) ← allocate_ctl_block w1.tx_h
  let w2 = record w1 { tx_h = c2 }
  unless_failed r2 w2 (do
    (r3, c3) ← allocate_ctl_block w2.rx_l
    let w3 = record w2 { rx_l = c3 }
    unless_failed r3 w3 (do
      (r4, c4) ← allocate_ctl_block w3.rx_h
      let w4 = record w3 { rx_h = c4 }
      unless_failed r4 w4 (pure (ok, w4, smsm_change_state 0x400 0x200 ∷ []))))

-- The result of `smsm_change_state` is dropped.
unfoldable pub alloc_ctl_blks : Channels → M (Ret × Channels × List Event)
unfolding allocate_ctl_block out_err desc_nums after_tx_l
alloc_ctl_blks w = do
  (r1, c1) ← allocate_ctl_block (desc_nums w).tx_l
  let w1 = record (desc_nums w) { tx_l = c1 }
  unless_failed r1 w1 (after_tx_l w1)
