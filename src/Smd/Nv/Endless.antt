-- ===== src/Smd/Nv/Endless.antt =====
-- The loop of `wcn36xx_smd_load_nv` over a file whose offsets do not fit 16 bits.
use wcn36xx.Common.{
  ℕ, zero, suc, ◌+◌, ◌%◌, ◌^◌, ◌<◌, ◌≡◌, refl, ap, ◌∙◌, false, none, some, List, [], ◌∷◌, ◌++◌,
  length, replicate, u32, failed, arith,
}
use wcn36xx.Hal.MsgType.{download_nv_rsp}
use wcn36xx.Hal.Layout.{header}
use wcn36xx.Smd.State.{Hal, Reply, accepted}
use wcn36xx.Smd.Receive.{is_one_of, arrivals}
use wcn36xx.Smd.Send.{wait_reply, send_and_wait, then_check, rsp_status_check}
use wcn36xx.Smd.Nv.{
  bytes_left, is_last, fill_fragment, send_fragment, load_nv_loop, Firmware, NvState, keep_nv,
  with_nv, smd_load_nv,
}
use wcn36xx.Smd.Nv.Load.{file_of, with_nv_of}
use wcn36xx.Smd.Nv.Fragments.{max_nv_size, loop_next}

-- The firmware's answer to a fragment it took.
unfoldable pub download_nv_ok : List ℕ
unfolding header
download_nv_ok = header download_nv_rsp 12 ++ u32 0

send_fragment-ok :
    (nv : List ℕ) (k off : ℕ) (h : Hal) (rs : List Reply)
    → h.replies ≡ accepted (download_nv_ok ∷ []) ∷ rs
    → (failed (send_fragment nv k off h).0 ≡ false) × ((send_fragment nv k off h).1.replies ≡ rs)
unfolding send_fragment fill_fragment send_and_wait wait_reply then_check rsp_status_check
    download_nv_ok is_one_of arrivals
send_fragment-ok nv k off h rs e = rw e (refl, refl)

not_last :
    (nv : List ℕ) (off : ℕ)
    → max_nv_size < length nv
    → length nv < 2 ^ 31
    → off % 1024 ≡ 0
    → off < 2 ^ 16
    → is_last nv off ≡ false
unfolding is_last bytes_left
not_last nv off big small aligned short = ground arith

-- `fm_offset` wraps before the loop has reached the end of the file.
pub loop-endless :
    (fuel : ℕ) (nv : List ℕ) (k off : ℕ) (h : Hal)
    → max_nv_size < length nv
    → length nv < 2 ^ 31
    → off % 1024 ≡ 0
    → off < 2 ^ 16
    → h.replies ≡ replicate fuel (accepted (download_nv_ok ∷ []))
    → load_nv_loop fuel nv k off h ≡ none
unfolding load_nv_loop
loop-endless zero nv k off h big small aligned short e = refl
loop-endless (suc fuel) nv k off h big small aligned short e =
    let (fine, rest) =
      send_fragment-ok nv k off h (replicate fuel (accepted (download_nv_ok ∷ []))) e in
    loop_next fuel nv k off h fine (not_last nv off big small aligned short)
    ∙ loop-endless fuel nv ((k + 1) % 2 ^ 16) ((off + 3072) % 2 ^ 16) (send_fragment nv k off h).1
        big small (omega arith) (omega arith) rest

-- A file of more than 67588 bytes, and fewer than 2 ^ 31, is sent forever by a driver whose firmware takes every fragment:
-- no fuel is enough.
pub smd_load_nv-endless :
    (fuel : ℕ) (nv : List ℕ) (firmware : Firmware) (s : NvState)
    → file_of s.nv firmware ≡ some nv
    → max_nv_size < length nv
    → length nv < 2 ^ 31
    → s.hal.replies ≡ replicate fuel (accepted (download_nv_ok ∷ []))
    → smd_load_nv fuel firmware s ≡ none
unfolding with_nv keep_nv
smd_load_nv-endless fuel nv firmware s e big small answers =
    with_nv_of fuel nv firmware s e
    ∙ ap (keep_nv nv) (loop-endless fuel nv 0 0 s.hal big small refl (omega arith) answers)
