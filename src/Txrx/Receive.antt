-- ===== src/Txrx/Receive.antt =====
-- txrx.c: a received frame behind its buffer descriptor, `wcn36xx_rx_skb`.
pub mod Told
use wcn36xx.Common.{
  ℕ, zero, suc, ◌+◌, ◌-◌, ◌*◌, ◌/◌, ◌%◌, ◌^◌, ◌≤◌, ◌<◌, ◌≡◌, refl, sym, ap, ◌∙◌, Bool, true, ltb,
  ◌&&◌, Bool-cases, inl, inr, leb, if◌then◌else◌, Option, none, some, List, [], ◌∷◌, ◌++◌, length,
  length-drop, take, drop, byte_at, le32_at, u32, ℤ, difference, as_s8, arith,
}
use wcn36xx.Smd.Nv.Fragments.{drop-drop}
use wcn36xx.Mac.Rates.{Band}
use wcn36xx.Txrx.Bd.{swap32}

-- `sizeof(struct wcn36xx_rx_bd) / sizeof(u32)`
abbrev pub rx_bd_words : ℕ
rx_bd_words = 19

-- `buff_to_be` on the first words of a buffer of bytes, on a little-endian host.
unfoldable pub swap_words : ℕ → List ℕ → List ℕ
unfolding swap32
swap_words zero buf = buf
swap_words (suc k) buf = u32 (swap32 (le32_at 0 buf)) ++ swap_words k (drop 4 buf)

-- `bd->pdu.mpdu_header_off`
unfoldable pub mpdu_header_off : List ℕ → ℕ
mpdu_header_off bd = le32_at 12 bd / 2 ^ 16 % 2 ^ 8

-- `bd->pdu.mpdu_len`
unfoldable pub mpdu_len : List ℕ → ℕ
mpdu_len bd = le32_at 16 bd / 2 ^ 16 % 2 ^ 16

-- `bd->phy_stat0`
unfoldable pub phy_stat0 : List ℕ → ℕ
phy_stat0 bd = le32_at 28 bd

-- `-get_rssi0(bd)`, which is -(100 - x), in `status.signal`, an `s8` of mac80211.
unfoldable pub minus_rssi0 : List ℕ → ℤ
unfolding phy_stat0
minus_rssi0 bd = as_s8 (difference (phy_stat0 bd / 2 ^ 24 % 2 ^ 8) 100)

pub data RxFlag : Type 0 where
  iv_stripped mmic_stripped decrypted : RxFlag

-- The fields of `struct ieee80211_rx_status` that are not 0.
pub record RxStatus : Type 0 where
  pub mactime : ℕ
  pub freq : ℕ
  pub band : Band
  pub signal : ℤ
  pub antenna : ℕ
  pub rate_idx : ℕ
  pub flag : List RxFlag

unfoldable pub rx_status : ℕ → Band → List ℕ → RxStatus
unfolding minus_rssi0
rx_status center_freq band bd = record {
  mactime = 10;
  freq = center_freq;
  band = band;
  signal = minus_rssi0 bd;
  antenna = 1;
  rate_idx = 1;
  flag = iv_stripped ∷ mmic_stripped ∷ decrypted ∷ [];
}

-- `skb_put` on an empty buffer with these bytes of room: behind the end is a panic.
unfoldable pub skb_put : ℕ → List ℕ → Option (List ℕ)
skb_put n room = if leb n (length room) then some (take n room) else none

unfoldable pub pulled : ℕ → RxStatus → Option (List ℕ) → Option (RxStatus × List ℕ)
pulled off status none = none
pulled off status (some skb) = some (status, drop off skb)

-- The channel of the hardware, and the room of the buffer from `skb->data`; what is handed up.
unfoldable pub rx_skb : ℕ → Band → List ℕ → Option (RxStatus × List ℕ)
unfolding swap_words mpdu_header_off mpdu_len rx_status skb_put pulled
rx_skb center_freq band buf =
    let bd = swap_words rx_bd_words buf in
    pulled (mpdu_header_off bd) (rx_status center_freq band bd)
      (skb_put (mpdu_header_off bd + mpdu_len bd) bd)
