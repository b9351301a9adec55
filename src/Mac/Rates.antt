-- ===== src/Mac/Rates.antt =====
-- main.c: the rates that the firmware is told for a station.
use wcn36xx.Common.{
  ℕ, zero, suc, ◌/◌, ◌%◌, Bool, true, ◌&&◌, ◌==◌, if◌then◌else◌, List, [], ◌∷◌, take, zeros,
  overwrite,
}

-- The bands of mac80211 that the driver offers.
pub data Band : Type 0 where
  band_2ghz band_5ghz : Band

-- The fields of `struct ieee80211_sta` that are read here; `supp_rates` is the word of the band.
pub record Sta : Type 0 where
  pub supp_rates : ℕ
  pub ht_supported : Bool
  pub rx_mask : List ℕ

pub record SupportedRates : Type 0 where
  pub op_rate_mode : ℕ
  pub dsss_rates : List ℕ
  pub ofdm_rates : List ℕ
  pub legacy_rates : List ℕ
  pub reserved : ℕ
  pub enhanced_rate_bitmap : ℕ
  pub supported_mcs_set : List ℕ
  pub rx_highest_data_rate : ℕ

-- `STA_11n`
abbrev pub sta_11n : ℕ
sta_11n = 6

-- The `hw_value`s of `wcn_5ghz_rates` and `wcn_2ghz_rates`.
abbrev pub rates_5ghz : List ℕ
rates_5ghz = 12 ∷ 18 ∷ 24 ∷ 36 ∷ 48 ∷ 72 ∷ 96 ∷ 108 ∷ []

abbrev pub rates_2ghz : List ℕ
rates_2ghz = 130 ∷ 132 ∷ 139 ∷ 150 ∷ rates_5ghz

-- `memset` of the whole struct to 0.
abbrev pub no_rates : SupportedRates
no_rates = record {
  op_rate_mode = 0;
  dsss_rates = zeros 4;
  ofdm_rates = zeros 8;
  legacy_rates = zeros 3;
  reserved = 0;
  enhanced_rate_bitmap = 0;
  supported_mcs_set = zeros 16;
  rx_highest_data_rate = 0;
}

-- The loop over a table of zeros, with the values that its entries would get: the table, and what is
-- left of `rates`. The word is shifted only after a bit that is set.
unfoldable pub rates_loop : List ℕ → ℕ → List ℕ × ℕ
rates_loop [] rates = ([], rates)
rates_loop (hw ∷ hws) rates =
    let set_bit = rates % 2 == 1 in
    let (table, left) = rates_loop hws (if set_bit then rates / 2 else rates) in
    ((if set_bit then hw else 0) ∷ table, left)

-- The loop for the DSSS rates is run in the 2.4 GHz band only.
unfoldable pub dsss_table : Band → ℕ → List ℕ × ℕ
unfolding rates_loop
dsss_table band_2ghz rates = rates_loop (take 4 rates_2ghz) rates
dsss_table band_5ghz rates = (zeros 4, rates)

unfoldable pub update_allowed_rates : Band → Sta → SupportedRates
unfolding dsss_table rates_loop
update_allowed_rates band sta =
    let (dsss, rates) = dsss_table band sta.supp_rates in
    let (ofdm, left) = rates_loop rates_5ghz rates in
    let mcs = if sta.ht_supported then overwrite sta.rx_mask (zeros 16) else zeros 16 in
    record no_rates {
      op_rate_mode = sta_11n;
      dsss_rates = dsss;
      ofdm_rates = ofdm;
      supported_mcs_set = mcs;
    }

unfoldable pub set_default_rates : SupportedRates → SupportedRates
set_default_rates rates = record rates {
  op_rate_mode = sta_11n;
  dsss_rates = overwrite (take 4 rates_2ghz) rates.dsss_rates;
  ofdm_rates = overwrite rates_5ghz rates.ofdm_rates;
  supported_mcs_set = overwrite (255 ∷ []) rates.supported_mcs_set;
}

-- The lowest `k` bits of a word are all set.
unfoldable pub lowest_set : ℕ → ℕ → Bool
lowest_set zero w = true
lowest_set (suc k) w = (w % 2 == 1) && lowest_set k (w / 2)
