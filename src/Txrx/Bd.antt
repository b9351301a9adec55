-- ===== src/Txrx/Bd.antt =====
-- The buffer descriptor of txrx.h that goes before each frame, as the words that the driver writes.
use wcn36xx.Common.{ℕ, ◌+◌, ◌*◌, ◌/◌, ◌%◌, ◌^◌, List, [], ◌∷◌, set}

-- `struct wcn36xx_tx_bd` with its `struct wcn36xx_pdu`, less the fields that stay 0
pub record TxBd : Type 0 where
  pub dpu_ne : ℕ
  pub tx_comp : ℕ
  pub ub : ℕ
  pub dpu_sign : ℕ
  pub dpu_rf : ℕ
  pub mpdu_data_off : ℕ
  pub mpdu_header_off : ℕ
  pub mpdu_header_len : ℕ
  pub tid : ℕ
  pub bd_ssn : ℕ
  pub mpdu_len : ℕ
  pub queue_id : ℕ
  pub bd_rate : ℕ
  pub ack_policy : ℕ
  pub sta_index : ℕ
  pub dpu_desc_idx : ℕ

-- `memset` to 0.
abbrev pub no_bd : TxBd
no_bd = record {
  dpu_ne = 0;
  tx_comp = 0;
  ub = 0;
  dpu_sign = 0;
  dpu_rf = 0;
  mpdu_data_off = 0;
  mpdu_header_off = 0;
  mpdu_header_len = 0;
  tid = 0;
  bd_ssn = 0;
  mpdu_len = 0;
  queue_id = 0;
  bd_rate = 0;
  ack_policy = 0;
  sta_index = 0;
  dpu_desc_idx = 0;
}

-- A word of bit fields, the lowest first, each with its width.
unfoldable pub pack : List (ℕ × ℕ) → ℕ
pack [] = 0
pack ((w, v) ∷ fields) = v % 2 ^ w + 2 ^ w * pack fields

-- The ten words of the struct.
unfoldable pub tx_bd_words : TxBd → List ℕ
unfolding pack
tx_bd_words bd =
    pack (
      (3, 0)
      ∷ (1, bd.dpu_ne)
      ∷ (1, 0)
      ∷ (1, bd.tx_comp)
      ∷ (1, 0)
      ∷ (1, bd.ub)
      ∷ (13, 0)
      ∷ (3, bd.dpu_sign)
      ∷ (8, bd.dpu_rf)
      ∷ [])
    ∷ 0
    ∷ 0
    ∷ pack ((7, 0) ∷ (9, bd.mpdu_data_off) ∷ (8, bd.mpdu_header_off) ∷ (8, bd.mpdu_header_len) ∷ [])
    ∷ pack ((8, 0) ∷ (4, bd.tid) ∷ (2, bd.bd_ssn) ∷ (2, 0) ∷ (16, bd.mpdu_len) ∷ [])
    ∷ pack (
        (7, 0)
        ∷ (5, bd.queue_id)
        ∷ (2, bd.bd_rate)
        ∷ (2, bd.ack_policy)
        ∷ (8, bd.sta_index)
        ∷ (8, bd.dpu_desc_idx)
        ∷ [])
    ∷ 0
    ∷ 0
    ∷ 0
    ∷ 0
    ∷ []

-- `cpu_to_be32` on a little-endian host.
unfoldable pub swap32 : ℕ → ℕ
swap32 w = w % 256 * 2 ^ 24 + w / 2 ^ 8 % 256 * 2 ^ 16 + w / 2 ^ 16 % 256 * 2 ^ 8 + w / 2 ^ 24 % 256

unfoldable pub buff_to_be : List ℕ → List ℕ
unfolding swap32
buff_to_be [] = []
buff_to_be (w ∷ ws) = swap32 w ∷ buff_to_be ws

-- What stands in the buffer of the BD at last: `tx_bd_sign` is written after the swap.
unfoldable pub tx_bd_buffer : TxBd → List ℕ
unfolding tx_bd_words buff_to_be
tx_bd_buffer bd = set (buff_to_be (tx_bd_words bd)) 6 0xbdbdbdbd
