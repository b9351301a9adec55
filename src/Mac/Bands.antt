-- ===== src/Mac/Bands.antt =====
-- The channels and rates that main.c registers with mac80211.
use wcn36xx.Common.{
  ℕ, ◌+◌, ◌*◌, ◌%◌, ◌≡◌, refl, Bool, true, false, ◌==◌, ◌&&◌, if◌then◌else◌, List, [], ◌∷◌,
}

-- CHAN2G and CHAN5G: a channel by its frequency and its number.
abbrev pub ghz2_channels : List (ℕ × ℕ)
ghz2_channels =
    (2412, 1)
    ∷ (2417, 2)
    ∷ (2422, 3)
    ∷ (2427, 4)
    ∷ (2432, 5)
    ∷ (2437, 6)
    ∷ (2442, 7)
    ∷ (2447, 8)
    ∷ (2452, 9)
    ∷ (2457, 10)
    ∷ (2462, 11)
    ∷ (2467, 12)
    ∷ (2472, 13)
    ∷ (2484, 14)
    ∷ []

abbrev pub ghz5_channels : List (ℕ × ℕ)
ghz5_channels =
    (5180, 36)
    ∷ (5200, 40)
    ∷ (5220, 44)
    ∷ (5240, 48)
    ∷ (5260, 52)
    ∷ (5280, 56)
    ∷ (5300, 60)
    ∷ (5320, 64)
    ∷ (5500, 100)
    ∷ (5520, 104)
    ∷ (5540, 108)
    ∷ (5560, 112)
    ∷ (5580, 116)
    ∷ (5600, 120)
    ∷ (5620, 124)
    ∷ (5640, 128)
    ∷ (5660, 132)
    ∷ (5700, 140)
    ∷ (5745, 149)
    ∷ (5765, 153)
    ∷ (5785, 157)
    ∷ (5805, 161)
    ∷ (5825, 165)
    ∷ []

-- RATE: a rate in units of 100 kbps, its number in the hardware, and whether the short preamble is
-- offered with it.
abbrev pub ghz2_rates : List (ℕ × ℕ × Bool)
ghz2_rates =
    (10, 0x82, false)
    ∷ (20, 0x84, true)
    ∷ (55, 0x8B, true)
    ∷ (110, 0x96, true)
    ∷ (60, 0x0C, false)
    ∷ (90, 0x12, false)
    ∷ (120, 0x18, false)
    ∷ (180, 0x24, false)
    ∷ (240, 0x30, false)
    ∷ (360, 0x48, false)
    ∷ (480, 0x60, false)
    ∷ (540, 0x6C, false)
    ∷ []

abbrev pub ghz5_rates : List (ℕ × ℕ × Bool)
ghz5_rates =
    (60, 0x0C, false)
    ∷ (90, 0x12, false)
    ∷ (120, 0x18, false)
    ∷ (180, 0x24, false)
    ∷ (240, 0x30, false)
    ∷ (360, 0x48, false)
    ∷ (480, 0x60, false)
    ∷ (540, 0x6C, false)
    ∷ []

-- The frequency of a channel by its number, as the standard has it.
abbrev frequency_2ghz : ℕ → ℕ
frequency_2ghz n = if n == 14 then 2484 else 2407 + 5 * n

abbrev all_match : (ℕ → ℕ) → List (ℕ × ℕ) → Bool
all_match f [] = true
all_match f ((freq, n) ∷ cs) = (freq == f n) && all_match f cs

channels_match :
    (all_match frequency_2ghz ghz2_channels ≡ true)
    × (all_match (λ n. 5000 + 5 * n) ghz5_channels ≡ true)
channels_match = (refl, refl)

-- A number of the hardware without its highest bit is the rate in units of 500 kbps.
abbrev rates_match : List (ℕ × ℕ × Bool) → Bool
rates_match [] = true
rates_match ((bitrate, hw, short) ∷ rs) = (bitrate == 5 * (hw % 128)) && rates_match rs

hw_rates_match : (rates_match ghz2_rates ≡ true) × (rates_match ghz5_rates ≡ true)
hw_rates_match = (refl, refl)
