-- ===== src/Mac/Keys.antt =====
-- `wcn36xx_set_key` of main.c. A call that follows the pointer of a station that is not given has
-- no result.
pub mod Faults
mod Tests
use wcn36xx.Common.{
  ℕ, Bool, true, false, ◌&&◌, ◌||◌, Option, none, some, List, ◌++◌, length, take, drop,
  if◌then◌else◌, ◌==◌, Ret, ok, err, eopnotsupp,
}
use wcn36xx.Hal.Enums.{EdType, ed_none, ed_wep40, ed_tkip, ed_ccmp}
use wcn36xx.Smd.State.{Hal}
use wcn36xx.Smd.Config.{slice}
use wcn36xx.Smd.Keys.{smd_set_stakey, smd_set_bsskey, smd_remove_stakey, smd_remove_bsskey}
use wcn36xx.Smd.Objects.{IfType, Iface, Peer, Radio}
use wcn36xx.Smd.Sta.Fill.{is_station}
use wcn36xx.Smd.Bss.Send.{smd_config_bss}

-- `WLAN_CIPHER_SUITE_`, as far as the driver names them
pub data Cipher : Type 0 where
  cipher_wep40 cipher_wep104 cipher_ccmp cipher_tkip other_cipher : Cipher

-- `enum set_key_cmd`
pub data KeyCmd : Type 0 where
  set_key_cmd disable_key_cmd : KeyCmd

-- `struct ieee80211_key_conf`: the key's length is its `keylen`, which is 32 with TKIP and at most 32
-- otherwise, and `pairwise` is the flag IEEE80211_KEY_FLAG_PAIRWISE.
pub record KeyConf : Type 0 where
  pub cipher : Cipher
  pub keyidx : ℕ
  pub pairwise : Bool
  pub key : List ℕ

-- The interface and the station of a callback, and the device.
pub record Mac : Type 0 where
  pub hal : Hal
  pub vif : Iface
  pub sta : Option Peer

unfoldable pub cipher_type : Cipher → Option EdType
cipher_type cipher_wep40 = some ed_wep40
cipher_type cipher_wep104 = some ed_wep40
cipher_type cipher_ccmp = some ed_ccmp
cipher_type cipher_tkip = some ed_tkip
cipher_type other_cipher = none

-- For TKIP the two MIC keys change places.
unfoldable pub hw_key : EdType → List ℕ → List ℕ
hw_key ed_tkip key = take 16 key ++ slice 24 8 key ++ slice 16 8 key
hw_key _ key = key

unfoldable pub get_sta_index : IfType → Peer → ℕ
get_sta_index kind sta = if is_station kind then sta.bss_sta_index else sta.sta_index

abbrev pub is_wep : Cipher → Bool
is_wep cipher_wep40 = true
is_wep cipher_wep104 = true
is_wep _ = false

-- `wcn36xx_smd_set_stakey` for the station.
unfoldable pub with_stakey : KeyConf → List ℕ → Mac → Option Peer → Option Mac
unfolding get_sta_index smd_set_stakey
with_stakey conf key m none = none
with_stakey conf key m (some sta) =
    let index = get_sta_index m.vif.kind sta in
    let sent = smd_set_stakey m.vif.encrypt_type conf.keyidx (length conf.key) key index m.hal in
    some (record m { hal = sent.1 })

-- In station mode the BSS is configured again, now with its encryption.
unfoldable pub reconfigure : Radio → Peer → Mac → Mac
unfolding smd_config_bss
reconfigure wcn sta m =
    let (ret, hal, net) =
      smd_config_bss wcn (record { vif = m.vif; sta = some sta }) sta.addr true m.hal in
    if is_station m.vif.kind
    then record { hal = hal; vif = net.vif; sta = net.sta }
    else record m { sta = some sta }

unfoldable pub set_pairwise : Radio → KeyConf → List ℕ → Mac → Option Peer → Option Mac
unfolding reconfigure with_stakey
set_pairwise wcn conf key m none = none
set_pairwise wcn conf key m (some sta) =
    let m' = reconfigure wcn (record sta { is_data_encrypted = true }) m in
    with_stakey conf key m' m'.sta

-- A WEP group key becomes the station's as well.
unfoldable pub set_wep : KeyConf → List ℕ → Mac → Option Peer → Option Mac
unfolding with_stakey
set_wep conf key m none = none
set_wep conf key m (some sta) =
    let sta' = record sta { is_data_encrypted = true } in
    with_stakey conf key (record m { sta = some sta' }) (some sta')

unfoldable pub set_group : KeyConf → List ℕ → Mac → Option Mac
unfolding set_wep smd_set_bsskey
set_group conf key m =
    let sent = smd_set_bsskey m.vif.encrypt_type conf.keyidx (length conf.key) key m.hal in
    let m' = record m { hal = sent.1 } in
    if is_wep conf.cipher then set_wep conf key m' m.sta else some m'

-- The key of a station that has no AID any more is not removed.
unfoldable pub disable_pairwise : KeyConf → Mac → Option Peer → Option Mac
unfolding get_sta_index smd_remove_stakey
disable_pairwise conf m none = none
disable_pairwise conf m (some sta) =
    let sta' = record sta { is_data_encrypted = false } in
    let index = get_sta_index m.vif.kind sta in
    let sent = smd_remove_stakey m.vif.encrypt_type conf.keyidx index m.hal in
    some (record m { hal = if sta.aid == 0 then m.hal else sent.1; sta = some sta' })

unfoldable pub disable_group : KeyConf → Mac → Mac
unfolding smd_remove_bsskey
disable_group conf m = record m {
  vif = record m.vif { encrypt_type = ed_none };
  hal = (smd_remove_bsskey ed_none conf.keyidx m.hal).1;
}

unfoldable pub apply_key : Radio → KeyCmd → KeyConf → EdType → Mac → Option Mac
unfolding hw_key set_pairwise set_group disable_pairwise disable_group
apply_key wcn set_key_cmd conf ed m =
    let key = hw_key ed conf.key in
    if conf.pairwise then set_pairwise wcn conf key m m.sta else set_group conf key m
apply_key wcn disable_key_cmd conf ed m =
    if conf.pairwise then disable_pairwise conf m m.sta else some (disable_group conf m)

unfoldable pub done : Option Mac → Option (Ret × Mac)
done none = none
done (some m) = some (ok, m)

-- The interface takes over the type of the encryption, also when a key is disabled.
unfoldable pub set_key_as : Radio → KeyCmd → KeyConf → Mac → Option EdType → Option (Ret × Mac)
unfolding apply_key done
set_key_as wcn cmd conf m none = some (err eopnotsupp, m)
set_key_as wcn cmd conf m (some ed) =
    done (apply_key wcn cmd conf ed (record m { vif = record m.vif { encrypt_type = ed } }))

unfoldable pub set_key : Radio → KeyCmd → KeyConf → Mac → Option (Ret × Mac)
unfolding cipher_type set_key_as
set_key wcn cmd conf m = set_key_as wcn cmd conf m (cipher_type conf.cipher)
