-- ===== src/Smd/Answers.antt =====
-- What the driver learns from the responses to config_sta, config_bss and add_sta_self.
use wcn36xx.Common.{
  inl, inr, ℕ, ◌≤◌, ◌≡◌, refl, ◌⊎◌, Bool, true, false, none, some, ap, ◌∙◌, Option, List, failed,
  if◌then◌else◌, ok, err, code, einval, eio, byte_at, le32_at, ltb, ◌==◌, Ret, arith,
}
use wcn36xx.Smd.State.{Hal}
use wcn36xx.Smd.Exchange.{Kept, Learned, Reads, refuses, takes, exchange-Learned}
use wcn36xx.Smd.Objects.{Iface, Peer, Radio}
use wcn36xx.Smd.Sta.Send.{
  smd_config_sta, smd_config_sta_rsp, smd_add_sta_self, smd_add_sta_self_rsp,
}
use wcn36xx.Smd.Bss.Send.{Net, learn_bss_sta, smd_config_bss, smd_config_bss_rsp}

-- A response of at least `size` bytes with status 0, which makes `after`.
pub record Success (size : ℕ) {A : Type 0} (after : List ℕ → A) (buf : List ℕ) (len : ℕ) (a : A)
    : Type 0 where
  pub whole : size ≤ len
  pub status : le32_at 8 buf ≡ 0
  pub taken : a ≡ after buf

abbrev pub told_sta : Peer → List ℕ → Peer
told_sta sta buf = record sta {
  sta_index = byte_at 12 buf;
  dpu_desc_index = byte_at 14 buf;
  ucast_dpu_sign = byte_at 17 buf;
}

abbrev pub told_self : Iface → List ℕ → Iface
told_self vif buf = record vif {
  self_sta_index = byte_at 12 buf;
  self_dpu_desc_index = byte_at 13 buf;
}

abbrev pub told_bss : Net → List ℕ → Net
told_bss net buf = record {
  vif = record net.vif { bss_index = byte_at 12 buf; self_ucast_dpu_sign = byte_at 14 buf };
  sta = learn_bss_sta buf net.sta;
}

-- The shape of the three readers.
module _ {A : Type 0} (size : ℕ) (after : List ℕ → A) (a : A) (short worse : Ret) where
  by_tests :
      (buf : List ℕ) (len : ℕ) (b c : Bool)
      → ltb len size ≡ b
      → (le32_at 8 buf == 0) ≡ c
      → failed short ≡ true
      → failed worse ≡ true
      → Reads
          (Success size after)
          a
          buf
          len
          (if b then (short, a) else if c then (ok, after buf) else (worse, a))
  by_tests buf len true c e f g h = refuses short g
  by_tests buf len false true e f g h =
      takes (after buf) (record { whole = ground arith; status = ground arith; taken = refl })
  by_tests buf len false false e f g h = refuses worse h

  reads :
      (buf : List ℕ) (len : ℕ)
      → failed short ≡ true
      → failed worse ≡ true
      → Reads (Success size after) a buf len (
          if ltb len size
          then (short, a)
          else if le32_at 8 buf == 0
          then (ok, after buf)
          else (worse, a))
  reads buf len = by_tests buf len _ _ refl refl

-- What a command leaves when it is to learn `after` of `a` from a response of `size` bytes.
abbrev pub Answered : {A : Type 0} → ℕ → (List ℕ → A) → A → Ret × Hal × A → Type 0
Answered size after a r = Kept a r ⊎ Learned (Success size after) r

-- Whatever the transport and the firmware do, each of config_sta, config_bss and add_sta_self
-- either reports a failure and leaves the station and the interface as they were, or returns 0:
-- then a response of at least the size of its struct and with status 0 is in the buffer, a response
-- came in time, and the indices that the driver keeps are bytes of the buffer, all else as it was.
pub smd_config_sta-Answered :
    (wcn : Radio) (vif : Iface) (sta : Peer) (net : Net) (bssid : List ℕ) (update : Bool) (h : Hal)
    → Answered 21 (told_sta sta) sta (smd_config_sta wcn vif sta h)
      × Answered 29 (told_bss net) net (smd_config_bss wcn net bssid update h)
      × Answered 15 (told_self vif) vif (smd_add_sta_self vif h)
unfolding smd_config_sta smd_config_bss smd_add_sta_self smd_config_sta_rsp smd_config_bss_rsp
    smd_add_sta_self_rsp
smd_config_sta-Answered wcn vif sta net bssid update h = (
  exchange-Learned _ smd_config_sta_rsp _ sta h
      (λ buf len. reads 21 (told_sta sta) sta (err einval) (err eio) buf len refl refl),
  exchange-Learned _ smd_config_bss_rsp _ net h
      (λ buf len. reads 29 (told_bss net) net (err einval) (err eio) buf len refl refl),
  exchange-Learned _ smd_add_sta_self_rsp _ vif h (λ buf len.
      reads 15 (told_self vif) vif (err einval) (code (le32_at 8 buf)) buf len refl refl),
)

abbrev pub is_given {ℓ} : {A : Type ℓ} → Option A → Bool
is_given none = false
is_given (some a) = true

learn_bss_sta-given :
    (buf : List ℕ) (sta : Option Peer) → is_given (learn_bss_sta buf sta) ≡ is_given sta
unfolding learn_bss_sta
learn_bss_sta-given buf none = refl
learn_bss_sta-given buf (some sta) = refl

-- Configuring the BSS keeps the station.
pub smd_config_bss-given :
    (wcn : Radio) (net : Net) (sta : Peer) (bssid : List ℕ) (h : Hal)
    → is_given (smd_config_bss wcn net bssid true h).2.sta ≡ is_given net.sta
smd_config_bss-given wcn net sta bssid h =
    elim (smd_config_sta-Answered wcn net.vif sta net bssid true h).1 [
      | inl kept ↦ ap (λ (n : Net). is_given n.sta) kept.unchanged
      | inr l ↦ ap (λ (n : Net). is_given n.sta) l.learned.taken ∙ learn_bss_sta-given _ net.sta
    ]
