-- ===== src/Smd/Keys.antt =====
-- The key commands of smd.c. `key` has at least `keylen` bytes, and `keylen` is at most 32.
use wcn36xx.Common.{ℕ, List, Ret}
use wcn36xx.Hal.MsgType.{set_stakey_req, set_bsskey_req, rmv_stakey_req, rmv_bsskey_req}
use wcn36xx.Hal.Enums.{EdType, tx_rx, rx_only}
use wcn36xx.Hal.Layout.{
  frame, keys, set_stakey_body, set_bsskey_body, remove_stakey_body, remove_bsskey_body,
}
use wcn36xx.Smd.State.{Hal}
use wcn36xx.Smd.Send.{simple}

unfoldable pub set_stakey_msg : EdType → ℕ → ℕ → List ℕ → ℕ → List ℕ
set_stakey_msg enc_type keyidx keylen key sta_index =
    frame set_stakey_req (set_stakey_body sta_index enc_type (keys keyidx 1 tx_rx keylen key) 1)

unfoldable pub smd_set_stakey : EdType → ℕ → ℕ → List ℕ → ℕ → Hal → Ret × Hal
smd_set_stakey enc_type keyidx keylen key sta_index h =
    simple (set_stakey_msg enc_type keyidx keylen key sta_index) h

unfoldable pub set_bsskey_msg : EdType → ℕ → ℕ → List ℕ → List ℕ
set_bsskey_msg enc_type keyidx keylen key =
    frame set_bsskey_req (set_bsskey_body 0 enc_type 1 (keys keyidx 0 rx_only keylen key))

unfoldable pub smd_set_bsskey : EdType → ℕ → ℕ → List ℕ → Hal → Ret × Hal
smd_set_bsskey enc_type keyidx keylen key h = simple (set_bsskey_msg enc_type keyidx keylen key) h

unfoldable pub remove_stakey_msg : EdType → ℕ → ℕ → List ℕ
remove_stakey_msg enc_type keyidx sta_index =
    frame rmv_stakey_req (remove_stakey_body sta_index enc_type keyidx)

unfoldable pub smd_remove_stakey : EdType → ℕ → ℕ → Hal → Ret × Hal
smd_remove_stakey enc_type keyidx sta_index h =
    simple (remove_stakey_msg enc_type keyidx sta_index) h

unfoldable pub remove_bsskey_msg : EdType → ℕ → List ℕ
remove_bsskey_msg enc_type keyidx = frame rmv_bsskey_req (remove_bsskey_body 0 enc_type keyidx)

unfoldable pub smd_remove_bsskey : EdType → ℕ → Hal → Ret × Hal
smd_remove_bsskey enc_type keyidx h = simple (remove_bsskey_msg enc_type keyidx) h
