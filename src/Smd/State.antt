-- ===== src/Smd/State.antt =====
-- The part of `struct wcn36xx` behind the command channel, and what lies outside the driver.
use wcn36xx.Common.{ℕ, Bool, true, List, [], ◌∷◌}

-- What `ctrl_ops->tx` and the firmware do with one command. `refused n`: `tx` returns `n + 1`.
-- `accepted ms`: `tx` returns 0, and the messages `ms` come in, in order, before the driver has
-- stopped waiting. With no completing message among them the wait times out.
pub data Reply : Type 0 where
  refused : ℕ → Reply
  accepted : List (List ℕ) → Reply

pub record Hal : Type 0 where
  -- `hal_buf` and `hal_rsp_len`
  pub buf : List ℕ
  pub rsp_len : ℕ
  -- `hal_rsp_compl`
  pub completed : Bool
  -- `hal_ind_queue`, oldest first, and whether `hal_ind_work` is queued on `hal_ind_wq`
  pub ind_queue : List (List ℕ)
  pub ind_pending : Bool
  -- every byte string handed to `ctrl_ops->tx`, oldest first
  pub sent : List (List ℕ)
  -- what the coming commands meet, and what the coming `kmalloc` calls return
  pub replies : List Reply
  pub allocs : List Bool

-- One `kmalloc`. A run whose list of outcomes is used up has memory.
abbrev pub first_or_true : List Bool → Bool
first_or_true [] = true
first_or_true (b ∷ bs) = b

abbrev pub tail_of : List Bool → List Bool
tail_of [] = []
tail_of (b ∷ bs) = bs
