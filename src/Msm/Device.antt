-- ===== src/Msm/Device.antt =====
-- The platform device that the module makes, and the address of the hardware: `wcn36xx_msm_init`,
-- `wcn36xx_msm_exit` and `wcn36xx_msm_get_hw_mac`.
use wcn36xx.Common.{
  ℕ, ◌+◌, ◌-◌, ◌≡◌, ◌↔◌, refl, Bool, true, false, ◌&&◌, failed, ltb, Option, none, some, List, [],
  ◌∷◌, ◌++◌, length, take, zeros, overwrite, if◌then◌else◌, Ret, ok, err, enomem, arith,
}

-- The devices "wcn36xx" that are allocated and not put, and those that are added; a device keeps its
-- resources. A resource is a number here.
pub record Platform : Type 0 where
  pub allocated : ℕ
  pub added : ℕ
  pub resources : List ℕ

-- What the calls of `wcn36xx_msm_init` give: the memory and the two lines of the WCNSS device by
-- their names, and whether `platform_device_add_data` has memory.
pub record Wcnss : Type 0 where
  pub wcnss_mmio : Option ℕ
  pub wcnss_wlantx_irq : Option ℕ
  pub wcnss_wlanrx_irq : Option ℕ
  pub data_memory : Bool

-- `platform_device_add_resources`, `platform_device_add_data` and `platform_device_add`.
unfoldable pub add_device : Bool → List ℕ → Platform → Ret × Platform
add_device data_memory res p =
    let with_res = record p { resources = res } in
    if data_memory then (ok, record with_res { added = p.added + 1 }) else (err enomem, with_res)

unfoldable pub with_rx_irq : Option ℕ → Bool → List ℕ → Platform → Ret × Platform
unfolding add_device
with_rx_irq none data_memory res p = (err enomem, p)
with_rx_irq (some r) data_memory res p = add_device data_memory (res ++ (r ∷ [])) p

unfoldable pub with_tx_irq : Option ℕ → Wcnss → List ℕ → Platform → Ret × Platform
unfolding with_rx_irq
with_tx_irq none w res p = (err enomem, p)
with_tx_irq (some r) w res p = with_rx_irq w.wcnss_wlanrx_irq w.data_memory (res ++ (r ∷ [])) p

unfoldable pub with_mmio : Option ℕ → Wcnss → Platform → Ret × Platform
unfolding with_tx_irq
with_mmio none w p = (err enomem, p)
with_mmio (some r) w p = with_tx_irq w.wcnss_wlantx_irq w (r ∷ []) p

-- The device is allocated first, and no error path puts it.
unfoldable pub msm_init : Wcnss → Platform → Ret × Platform
unfolding with_mmio
msm_init w p = with_mmio w.wcnss_mmio w (record p { allocated = p.allocated + 1; resources = [] })

unfoldable pub msm_exit : Platform → Platform
msm_exit p = record p { allocated = p.allocated - 1; added = p.added - 1 }

-- 17 bytes of the file and a zero.
unfoldable pub mac_text : List ℕ → Option (List ℕ)
mac_text file = if ltb (length file) 17 then none else some (take 17 file ++ zeros 1)

-- `qcom_oui`
abbrev pub qcom_oui : List ℕ
qcom_oui = 0x00 ∷ 0x0A ∷ 0xF5 ∷ []

-- `sscanf` is a parameter: the values that it converts, which go to the first bytes of `addr`.
module _ (sscanf : List ℕ → List ℕ) where
  unfoldable pub scan_mac : Option (List ℕ) → List ℕ → Option (List ℕ)
  scan_mac none addr = none
  scan_mac (some tmp) addr = some (overwrite (take 6 (sscanf tmp)) addr)

  -- `random` are the bytes of `get_random_bytes`. `none` is a read behind the end of the file.
  unfoldable pub get_hw_mac : Option (List ℕ) → List ℕ → List ℕ → Option (List ℕ)
  unfolding scan_mac mac_text
  get_hw_mac none random addr = some (qcom_oui ++ take 3 random)
  get_hw_mac (some file) random addr = scan_mac (mac_text file) addr

abbrev pub is_there : Option ℕ → Bool
is_there none = false
is_there (some r) = true

abbrev pub listed : Option ℕ → List ℕ
listed none = []
listed (some r) = r ∷ []

abbrev pub Initialised : Wcnss → Platform → Ret × Platform → Type 0
Initialised w p (r, q) =
    ((r ≡ ok) ↔ (
      (is_there w.wcnss_mmio
        && is_there w.wcnss_wlantx_irq
        && is_there w.wcnss_wlanrx_irq
        && w.data_memory)
      ≡ true))
    × (q.allocated ≡ p.allocated + 1)
    × (q.added ≡ (if failed r then p.added else p.added + 1))
    × (r ≡ ok
        → (q.resources
            ≡ listed w.wcnss_mmio ++ listed w.wcnss_wlantx_irq ++ listed w.wcnss_wlanrx_irq)
          × ((msm_exit q).allocated ≡ p.allocated)
          × ((msm_exit q).added ≡ p.added))

initialised :
    (mmio tx rx : Option ℕ) (b : Bool) (p : Platform)
    → let w : Wcnss = record {
      wcnss_mmio = mmio;
      wcnss_wlantx_irq = tx;
      wcnss_wlanrx_irq = rx;
      data_memory = b;
    } in
      Initialised w p (msm_init w p)
unfolding msm_init msm_exit
initialised none tx rx b p = (ground arith, refl, refl, λ e. cc)
initialised (some m) none rx b p = (ground arith, refl, refl, λ e. cc)
initialised (some m) (some t) none b p = (ground arith, refl, refl, λ e. cc)
initialised (some m) (some t) (some r) false p = (ground arith, refl, refl, λ e. cc)
initialised (some m) (some t) (some r) true p =
    (ground arith, refl, refl, λ e. (refl, omega arith, omega arith))

-- The module starts exactly when the memory and both lines of the WCNSS device are found and there is
-- memory for the operations; then a device with the three resources in this order is added, which
-- leaving the module takes away. When it does not start, no device is added, but the one
-- that was allocated is never put.
pub msm_init_lem : (w : Wcnss) (p : Platform) → Initialised w p (msm_init w p)
msm_init_lem w p = initialised w.wcnss_mmio w.wcnss_wlantx_irq w.wcnss_wlanrx_irq w.data_memory p
