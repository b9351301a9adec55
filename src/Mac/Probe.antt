-- ===== src/Mac/Probe.antt =====
-- Probing and removing the platform device:
-- `wcn36xx_platform_get_resources`, `wcn36xx_probe` and `wcn36xx_remove` of main.c.
use wcn36xx.Common.{
  not, ℕ, ◌+◌, ◌-◌, ◌≡◌, refl, Bool, true, false, ◌&&◌, failed, if◌then◌else◌, Option, none, some,
  List, [], Ret, ok, err, enomem, enoent, code, arith,
}

-- `struct wcn36xx` and the hardware of mac80211 as far as they are set: the counts are of devices
-- allocated, of memory that is mapped and of devices registered, `nv` is the cached firmware.
pub record Board : Type 0 where
  pub hws : ℕ
  pub mapped : ℕ
  pub registered : ℕ
  pub nv : Option (List ℕ)
  pub address : List ℕ
  pub tx_irq : ℕ
  pub rx_irq : ℕ

-- What the calls of a probe give: memory for the device, `get_hw_mac` with the address, the resources
-- by their names, whether `ioremap` succeeds, and `ieee80211_register_hw`.
pub record Found : Type 0 where
  pub hw_memory : Bool
  pub mac_result : Ret
  pub address : List ℕ
  pub wcnss_wlantx_irq : Option ℕ
  pub wcnss_wlanrx_irq : Option ℕ
  pub wcnss_mmio : Option ℕ
  pub io_memory : Bool
  pub register_result : Ret

unfoldable pub map_memory : Option ℕ → Bool → Board → Ret × Board
map_memory none io b = (err enoent, b)
map_memory (some start) io b =
    if io then (ok, record b { mapped = b.mapped + 1 }) else (err enomem, b)

unfoldable pub set_rx_irq : Option ℕ → Found → Board → Ret × Board
unfolding map_memory
set_rx_irq none f b = (err enoent, b)
set_rx_irq (some start) f b = map_memory f.wcnss_mmio f.io_memory (record b { rx_irq = start })

unfoldable pub set_tx_irq : Option ℕ → Found → Board → Ret × Board
unfolding set_rx_irq
set_tx_irq none f b = (err enoent, b)
set_tx_irq (some start) f b = set_rx_irq f.wcnss_wlanrx_irq f (record b { tx_irq = start })

unfoldable pub platform_get_resources : Found → Board → Ret × Board
unfolding set_tx_irq
platform_get_resources f b = set_tx_irq f.wcnss_wlantx_irq f b

-- The labels.
unfoldable pub out_wq : Ret → Board → Ret × Board
out_wq ret b = (ret, record b { hws = b.hws - 1 })

unfoldable pub out_unmap : Ret → Board → Ret × Board
unfolding out_wq
out_unmap ret b = out_wq ret (record b { mapped = b.mapped - 1 })

unfoldable pub register_hw : Ret → Board → Ret × Board
unfolding out_unmap
register_hw r b =
    if failed r then out_unmap r b else (ok, record b { registered = b.registered + 1 })

unfoldable pub with_resources : Ret → Ret × Board → Ret × Board
unfolding out_wq register_hw
with_resources register_result (r, b) =
    if failed r then out_wq r b else register_hw register_result b

unfoldable pub probe : Found → Board → Ret × Board
unfolding platform_get_resources with_resources
probe f b =
    let new = record b {
      hws = b.hws + 1;
      nv = none;
      address = (if failed f.mac_result then [] else f.address);
    } in
    if f.hw_memory
    then with_resources f.register_result (platform_get_resources f new)
    else (err enomem, b)

unfoldable pub remove : Board → Board
remove b = record b {
  nv = none;
  registered = b.registered - 1;
  mapped = b.mapped - 1;
  hws = b.hws - 1;
}

-- By whether the probe failed, what it holds beside the board before.
abbrev pub Counts : Board → Ret × Board → Type 0
Counts p (r, b) =
    (b.hws ≡ (if failed r then p.hws else p.hws + 1))
    × (b.mapped ≡ (if failed r then p.mapped else p.mapped + 1))
    × (b.registered ≡ (if failed r then p.registered else p.registered + 1))

-- What the counts are once a device that was probed is removed.
abbrev pub settled : Ret × Board → Board
settled (r, b) = if failed r then b else remove b

abbrev pub is_found : Option ℕ → Bool
is_found none = false
is_found (some start) = true

-- Everything that a probe asks for is there.
abbrev pub is_complete : Found → Bool
is_complete f =
    f.hw_memory
    && is_found f.wcnss_wlantx_irq
    && is_found f.wcnss_wlanrx_irq
    && is_found f.wcnss_mmio
    && f.io_memory
    && not (failed f.register_result)

-- What is told of a probe and the removal after it.
abbrev pub ProbeOutcome : Found → Board → Ret × Board → Type 0
ProbeOutcome f p (r, b) =
    (failed r ≡ not (is_complete f))
    × Counts p (r, b)
    × ((settled (r, b)).hws ≡ p.hws)
    × ((settled (r, b)).mapped ≡ p.mapped)
    × ((settled (r, b)).registered ≡ p.registered)

abbrev found : Bool → Ret → List ℕ → Option ℕ → Option ℕ → Option ℕ → Bool → Ret → Found
found hw mac address tx rx mmio io registered = record {
  hw_memory = hw;
  mac_result = mac;
  address = address;
  wcnss_wlantx_irq = tx;
  wcnss_wlanrx_irq = rx;
  wcnss_mmio = mmio;
  io_memory = io;
  register_result = registered;
}

probed :
    (hw : Bool) (mac : Ret) (a : List ℕ) (tx rx mmio : Option ℕ) (io : Bool) (reg : Ret) (p : Board)
    → let f = found hw mac a tx rx mmio io reg in ProbeOutcome f p (probe f p)
unfolding probe remove
probed false mac a tx rx mmio io reg p = (refl, (refl, refl, refl), refl, refl, refl)
probed true mac a none rx mmio io reg p = (refl, (omega arith, refl, refl), omega arith, refl, refl)
probed true mac a (some t) none mmio io reg p =
    (refl, (omega arith, refl, refl), omega arith, refl, refl)
probed true mac a (some t) (some r) none io reg p =
    (refl, (omega arith, refl, refl), omega arith, refl, refl)
probed true mac a (some t) (some r) (some m) false reg p =
    (refl, (omega arith, refl, refl), omega arith, refl, refl)
probed true mac a (some t) (some r) (some m) true ok p =
    (refl, (refl, refl, refl), omega arith, omega arith, omega arith)
probed true mac a (some t) (some r) (some m) true (err e) p =
    (refl, (omega arith, omega arith, refl), omega arith, omega arith, refl)
probed true mac a (some t) (some r) (some m) true (code n) p =
    (refl, (omega arith, omega arith, refl), omega arith, omega arith, refl)

-- A probe returns 0 exactly when everything that it asks for is there. Then the device, the mapping
-- and the registration are held, which a removal gives back; otherwise nothing is held.
pub probe-remove : (f : Found) (p : Board) → ProbeOutcome f p (probe f p)
probe-remove f p =
    probed f.hw_memory f.mac_result f.address f.wcnss_wlantx_irq f.wcnss_wlanrx_irq f.wcnss_mmio
      f.io_memory f.register_result p
