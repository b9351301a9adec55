-- ===== src/Mac/Keys/Faults.antt =====
-- When `wcn36xx_set_key` follows the pointer of a station that is not given.
use wcn36xx.Common.{
  ◌≡◌, refl, ◌∙◌, inl, inr, Bool, true, false, not, ◌&&◌, ◌||◌, Bool-cases, Option, none, some,
  List, ℕ, length, if◌then◌else◌,
}
use wcn36xx.Hal.Enums.{EdType}
use wcn36xx.Smd.Keys.{smd_set_bsskey}
use wcn36xx.Smd.Objects.{Peer, Radio}
use wcn36xx.Smd.Sta.Fill.{is_station}
use wcn36xx.Smd.Bss.Send.{Net}
use wcn36xx.Smd.Answers.{is_given, smd_config_bss-given}
use wcn36xx.Mac.Keys.{
  KeyCmd, set_key_cmd, disable_key_cmd, KeyConf, Mac, cipher_type, is_wep, with_stakey, reconfigure,
  set_pairwise, set_wep, set_group, disable_pairwise, apply_key, done, set_key_as, set_key, hw_key,
}

either_given :
    (b : Bool) (m n : Mac)
    → is_given m.sta ≡ true
    → is_given n.sta ≡ true
    → is_given (if b then m else n).sta ≡ true
either_given true m n e f = e
either_given false m n e f = f

reconfigure-given :
    (wcn : Radio) (sta : Peer) (m : Mac) → is_given (reconfigure wcn sta m).sta ≡ true
unfolding reconfigure
reconfigure-given wcn sta m =
    let given : Net = record { vif = m.vif; sta = some sta } in
    either_given (is_station m.vif.kind) _ _ (smd_config_bss-given wcn given sta sta.addr m.hal)
      refl

with_stakey-given :
    (conf : KeyConf) (key : List ℕ) (m : Mac) (sta : Option Peer)
    → is_given (with_stakey conf key m sta) ≡ is_given sta
unfolding with_stakey
with_stakey-given conf key m none = refl
with_stakey-given conf key m (some sta) = refl

set_pairwise-given :
    (wcn : Radio) (conf : KeyConf) (key : List ℕ) (m : Mac) (sta : Option Peer)
    → is_given (set_pairwise wcn conf key m sta) ≡ is_given sta
unfolding set_pairwise
set_pairwise-given wcn conf key m none = refl
set_pairwise-given wcn conf key m (some sta) =
    let told : Peer = record sta { is_data_encrypted = true } in
    let m' = reconfigure wcn told m in
    with_stakey-given conf key m' m'.sta ∙ reconfigure-given wcn told m

set_wep-given :
    (conf : KeyConf) (key : List ℕ) (m : Mac) (sta : Option Peer)
    → is_given (set_wep conf key m sta) ≡ is_given sta
unfolding set_wep
set_wep-given conf key m none = refl
set_wep-given conf key m (some sta) =
    let told : Peer = record sta { is_data_encrypted = true } in
    with_stakey-given conf key (record m { sta = some told }) (some told)

set_group-given :
    (conf : KeyConf) (key : List ℕ) (m : Mac)
    → is_given (set_group conf key m) ≡ (not (is_wep conf.cipher) || is_given m.sta)
unfolding set_group
set_group-given conf key m = elim (Bool-cases (is_wep conf.cipher)) [
  | inl e ↦ rw e (
      set_wep-given conf key
        (record m {
          hal = (smd_set_bsskey m.vif.encrypt_type conf.keyidx (length conf.key) key m.hal).1;
        })
        m.sta)
  | inr e ↦ rw e refl
]

disable_pairwise-given :
    (conf : KeyConf) (m : Mac) (sta : Option Peer)
    → is_given (disable_pairwise conf m sta) ≡ is_given sta
unfolding disable_pairwise
disable_pairwise-given conf m none = refl
disable_pairwise-given conf m (some sta) = refl

-- Whether a call is about a station, once the cipher is supported.
abbrev pub about_sta : KeyCmd → KeyConf → Bool
about_sta set_key_cmd conf = conf.pairwise || is_wep conf.cipher
about_sta disable_key_cmd conf = conf.pairwise

apply_key-given :
    (wcn : Radio) (cmd : KeyCmd) (conf : KeyConf) (ed : EdType) (m : Mac)
    → is_given (apply_key wcn cmd conf ed m) ≡ (not (about_sta cmd conf) || is_given m.sta)
unfolding apply_key
apply_key-given wcn set_key_cmd conf ed m = elim (Bool-cases conf.pairwise) [
  | inl e ↦ rw e (set_pairwise-given wcn conf (hw_key ed conf.key) m m.sta)
  | inr e ↦ rw e (set_group-given conf (hw_key ed conf.key) m)
]
apply_key-given wcn disable_key_cmd conf ed m = elim (Bool-cases conf.pairwise) [
  | inl e ↦ rw e (disable_pairwise-given conf m m.sta)
  | inr e ↦ rw e refl
]

done-given : (m : Option Mac) → is_given (done m) ≡ is_given m
unfolding done
done-given none = refl
done-given (some m) = refl

set_key_as-given :
    (wcn : Radio) (cmd : KeyCmd) (conf : KeyConf) (m : Mac) (ed : Option EdType)
    → is_given (set_key_as wcn cmd conf m ed)
      ≡ (not (is_given ed && about_sta cmd conf) || is_given m.sta)
unfolding set_key_as
set_key_as-given wcn cmd conf m none = refl
set_key_as-given wcn cmd conf m (some ed) =
    let m' : Mac = record m { vif = record m.vif { encrypt_type = ed } } in
    done-given (apply_key wcn cmd conf ed m') ∙ apply_key-given wcn cmd conf ed m'

-- Without a station the call follows a null pointer exactly when the cipher is supported and the call
-- is for a pairwise key, or sets a WEP key; with a station it always returns.
pub set_key-given :
    (wcn : Radio) (cmd : KeyCmd) (conf : KeyConf) (m : Mac)
    → is_given (set_key wcn cmd conf m)
      ≡ (not (is_given (cipher_type conf.cipher) && about_sta cmd conf) || is_given m.sta)
unfolding set_key
set_key-given wcn cmd conf m = set_key_as-given wcn cmd conf m (cipher_type conf.cipher)
