-- ===== src/Smd/Nv/Load.antt =====
-- `wcn36xx_smd_load_nv` as a whole, for a calibration file whose offsets fit 16 bits.
use wcn36xx.Common.{ℕ, ◌≤◌, ◌≡◌, sym, ap, ◌∙◌, Option, none, some, List, length, drop, Ret, ok}
use mathlib.Core.Option.{some-injective, none-ne-some}
use wcn36xx.Smd.State.{Hal}
use wcn36xx.Smd.Nv.{
  load_nv_loop, Firmware, found, missing, NvState, keep_nv, with_nv, request_nv, load_cached,
  smd_load_nv,
}
use wcn36xx.Smd.Nv.Fragments.{max_nv_size}
use wcn36xx.Smd.Nv.Sent.{SentAll, loop-SentAll}

-- The file that a load works on: the one kept, or the one found.
abbrev pub file_of : Option (List ℕ) → Firmware → Option (List ℕ)
file_of (some nv) firmware = some nv
file_of none (found nv) = some nv
file_of none (missing n) = none

pub with_nv_of :
    (fuel : ℕ) (nv : List ℕ) (firmware : Firmware) (s : NvState)
    → file_of s.nv firmware ≡ some nv
    → smd_load_nv fuel firmware s ≡ with_nv fuel nv s.hal
unfolding smd_load_nv load_cached request_nv
with_nv_of fuel nv firmware s e = by_source s.nv firmware e
  where
    by_source :
        (kept : Option (List ℕ)) (firmware : Firmware)
        → file_of kept firmware ≡ some nv
        → load_cached fuel kept firmware s.hal ≡ with_nv fuel nv s.hal
    by_source (some kept) firmware e =
        ap (λ file. with_nv fuel file s.hal) (some-injective kept nv e)
    by_source none (found file) e = ap (λ file. with_nv fuel file s.hal) (some-injective file nv e)
    by_source none (missing n) e = absurd (none-ne-some nv e)

keep_nv-some :
    (nv : List ℕ) (r : Option (Ret × Hal)) (s' : NvState)
    → keep_nv nv r ≡ some (ok, s')
    → (r ≡ some (ok, s'.hal)) × (s'.nv ≡ some nv)
unfolding keep_nv
keep_nv-some nv none s' e = absurd (none-ne-some (ok, s') e)
keep_nv-some nv (some (ret, h')) s' e =
    let same = some-injective (ret, record { nv = some nv; hal = h' }) (ok, s') e in
    (
      ap (λ (p : Ret × NvState). some (p.0, p.1.hal)) same,
      sym (ap (λ (p : Ret × NvState). p.1.nv) same),
    )

-- A load that returns 0, of a file of 4 to 67588 bytes, kept the file and sent the whole table behind
-- its first four bytes, cut into numbered fragments: all have 3072 bytes but the last, which has at
-- most as many and is the one that is marked as the last.
pub smd_load_nv-sent :
    (fuel : ℕ) (nv : List ℕ) (firmware : Firmware) (s s' : NvState)
    → file_of s.nv firmware ≡ some nv
    → 4 ≤ length nv
    → length nv ≤ max_nv_size
    → smd_load_nv fuel firmware s ≡ some (ok, s')
    → SentAll 0 (drop 4 nv) s.hal.sent s'.hal.sent × (s'.nv ≡ some nv)
unfolding with_nv
smd_load_nv-sent fuel nv firmware s s' e enough small done =
    let (run, kept) =
      keep_nv-some nv (load_nv_loop fuel nv 0 0 s.hal) s'
        (sym (with_nv_of fuel nv firmware s e) ∙ done) in
    (loop-SentAll fuel nv 0 s.hal s'.hal enough small run, kept)
