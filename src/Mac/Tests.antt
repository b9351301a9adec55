-- ===== src/Mac/Tests.antt =====
-- The rates of a station at concrete inputs.
use wcn36xx.Common.{◌≡◌, refl, true, ◌∷◌, zeros, get_or, if◌then◌else◌}
use wcn36xx.Mac.Rates.{
  band_2ghz, band_5ghz, Sta, no_rates, update_allowed_rates, set_default_rates, lowest_set,
}
use wcn36xx.Mac.Allowed.{told, offered, update_allowed_rates_lem}

-- All rates of the 2.4 GHz band.
abbrev peer : Sta
peer = record { supp_rates = 4095; ht_supported = true; rx_mask = 255 ∷ zeros 9 }

-- The same without 2 Mbps.
abbrev without_2mbps : Sta
without_2mbps = record peer { supp_rates = 4093 }

full_rates : update_allowed_rates band_2ghz peer ≡ set_default_rates no_rates
unfolding update_allowed_rates set_default_rates
full_rates = refl

one_rate : told band_2ghz (update_allowed_rates band_2ghz without_2mbps) ≡ 130 ∷ zeros 11
unfolding update_allowed_rates told
one_rate = refl

six_mbps :
    (update_allowed_rates band_5ghz (record peer { supp_rates = 1 })).ofdm_rates ≡ 12 ∷ zeros 7
unfolding update_allowed_rates
six_mbps = refl

update_allowed_rates_lem_example :
    get_or (told band_2ghz (update_allowed_rates band_2ghz without_2mbps)) 2 0
    ≡ (if lowest_set 3 4093 then get_or (offered band_2ghz) 2 0 else 0)
update_allowed_rates_lem_example = update_allowed_rates_lem band_2ghz without_2mbps 2
