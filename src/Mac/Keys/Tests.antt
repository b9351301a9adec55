-- ===== src/Mac/Keys/Tests.antt =====
-- Runs of the callback for keys.
use wcn36xx.Common.{
  ◌≡◌, refl, false, not, ◌&&◌, ◌||◌, none, some, [], ◌∷◌, err, eopnotsupp, zeros, ◌++◌,
}
use wcn36xx.Hal.Enums.{ed_tkip}
use wcn36xx.Smd.Bss.Sample.{radio, vif, sta, answering}
use wcn36xx.Smd.Answers.{is_given}
use wcn36xx.Mac.Keys.{
  cipher_wep40, other_cipher, set_key_cmd, KeyConf, Mac, cipher_type, hw_key, set_key,
}
use wcn36xx.Mac.Keys.Faults.{about_sta, set_key-given}

abbrev wep_key : KeyConf
wep_key = record {
  cipher = cipher_wep40;
  keyidx = 1;
  pairwise = false;
  key = 1 ∷ 2 ∷ 3 ∷ 4 ∷ 5 ∷ [];
}

abbrev without_sta : Mac
without_sta = record { hal = answering []; vif = vif; sta = none }

abbrev with_sta : Mac
with_sta = record { hal = answering []; vif = vif; sta = some sta }

-- A WEP group key, which mac80211 sets without a station.
group_wep : set_key radio set_key_cmd wep_key without_sta ≡ none
unfolding set_key
group_wep = refl

unsupported :
    set_key radio set_key_cmd (record wep_key { cipher = other_cipher }) without_sta
    ≡ some (err eopnotsupp, without_sta)
unfolding set_key
unsupported = refl

-- The halves of the MIC key.
tkip :
    hw_key ed_tkip
      (zeros 16 ++ (1 ∷ 1 ∷ 1 ∷ 1 ∷ 1 ∷ 1 ∷ 1 ∷ 1 ∷ []) ++ (2 ∷ 2 ∷ 2 ∷ 2 ∷ 2 ∷ 2 ∷ 2 ∷ 2 ∷ []))
    ≡ zeros 16 ++ (2 ∷ 2 ∷ 2 ∷ 2 ∷ 2 ∷ 2 ∷ 2 ∷ 2 ∷ []) ++ (1 ∷ 1 ∷ 1 ∷ 1 ∷ 1 ∷ 1 ∷ 1 ∷ 1 ∷ [])
unfolding hw_key
tkip = refl

set_key-given_example : is_given (set_key radio set_key_cmd wep_key without_sta) ≡ (
    not (is_given (cipher_type wep_key.cipher) && about_sta set_key_cmd wep_key)
    || is_given without_sta.sta)
set_key-given_example = set_key-given radio set_key_cmd wep_key without_sta
