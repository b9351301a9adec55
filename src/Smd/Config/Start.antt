-- ===== src/Smd/Config/Start.antt =====
-- What start and update_cfg send, and what a start that fails leaves as it was.
use wcn36xx.Common.{
  ltb, ◌==◌, le16_at, ℕ, ◌≡◌, ◌≢◌, ◌⊎◌, refl, sym, ap, ◌∙◌, List, [], ◌∷◌, ◌++◌, length, take,
  take-append, drop, u32, write_at, Ret, ok, err, code, arith, Bool-cases, inl, inr,
}
use wcn36xx.Hal.Enums.{result_success}
use wcn36xx.Hal.Layout.{header, frame}
use wcn36xx.Hal.MsgType.{start_req, update_cfg_req}
use wcn36xx.Smd.State.{Hal}
use wcn36xx.Smd.Send.{prepare_hal_buf, send_and_wait, rsp_status_check}
use wcn36xx.Smd.Effects.{send_and_wait-sent, then_check-state}
use wcn36xx.Smd.Config.{
  FwInfo, cfg_vals, tlv, put_cfg_list, put_cfg_tlv_u32, start_msg, start_rsp, start_checked,
  start_send, start_after, smd_start, update_cfg_msg, smd_update_cfg,
}
use wcn36xx.Smd.Config.Tlv.{tlvs, put_cfg_list-fits}

-- The message that starts the firmware: 41 TLVs behind the type of driver and their length.
unfoldable pub full_start_msg : List ℕ
full_start_msg = header start_req 508 ++ u32 0 ++ u32 492 ++ tlvs cfg_vals

start_checked-state : (p : Ret × Hal) (info : FwInfo) → (start_checked p info).1 ≡ p.1
unfolding start_checked
start_checked-state (ok, h) info = refl
start_checked-state (err e, h) info = refl
start_checked-state (code n, h) info = refl

start_buffer :
    (rest : List ℕ)
    → write_at 12 (u32 492) (write_at 4 (u32 508) ((start_msg ++ tlvs cfg_vals) ++ rest))
      ≡ full_start_msg ++ rest
unfolding full_start_msg start_msg frame header tlvs cfg_vals
start_buffer rest = refl

length-full : length full_start_msg ≡ 508
unfolding full_start_msg header tlvs cfg_vals
length-full = refl

start_send-sent :
    (buf rest : List ℕ) (h : Hal)
    → buf ≡ (start_msg ++ tlvs cfg_vals) ++ rest
    → (start_send 508 (record h { buf = buf })).1.sent ≡ h.sent ++ (full_start_msg ∷ [])
unfolding start_send
start_send-sent buf rest h e =
    let filled = λ (b : List ℕ). write_at 12 (u32 492) (write_at 4 (u32 508) b) in
    send_and_wait-sent (record h { buf = filled buf }) 508
    ∙ ap (λ m. h.sent ++ (m ∷ []))
        (ap (λ b. take 508 (filled b)) e
          ∙ ap (take 508) (start_buffer rest)
          ∙ ap (λ n. take n (full_start_msg ++ rest)) (sym length-full)
          ∙ take-append full_start_msg rest)

-- A start sends one message: the type of driver and the whole table.
smd_start-sent :
    (h : Hal) (info : FwInfo) → (smd_start h info).1.sent ≡ h.sent ++ (full_start_msg ∷ [])
unfolding smd_start prepare_hal_buf start_after start_msg frame header
smd_start-sent h info =
    let tail = drop 16 h.buf in
    let loop = put_cfg_list-fits cfg_vals 16 start_msg tail refl (omega arith) in
    let buf = (put_cfg_list cfg_vals (start_msg ++ tail) 16).1 in
    let ready : Hal = record h { buf = buf } in
    ap (λ (s : Hal). s.sent) (start_checked-state (start_send 508 ready) info)
    ∙ start_send-sent buf (drop 492 tail) h (ap (λ (p : Ret × List ℕ × ℕ). p.1) loop)

start_rsp-kept :
    (buf : List ℕ) (len : ℕ) (info : FwInfo)
    → (start_rsp buf len info).0 ≢ ok
    → (start_rsp buf len info).1 ≡ info
unfolding start_rsp
start_rsp-kept buf len info bad = elim (Bool-cases (ltb len 144)) [
  | inl e ↦ rw e refl
  | inr e ↦ elim (Bool-cases (le16_at 8 buf == result_success)) [
    | inl f ↦ absurd (bad (rw (e, f) refl))
    | inr f ↦ rw (e, f) refl
  ]
]

start_checked-kept :
    (p : Ret × Hal) (info : FwInfo)
    → (start_checked p info).0 ≢ ok
    → (start_checked p info).2 ≡ info
unfolding start_checked
start_checked-kept (ok, h) info bad = start_rsp-kept h.buf h.rsp_len info bad
start_checked-kept (err e, h) info bad = refl
start_checked-kept (code n, h) info bad = refl

-- A start that fails leaves the versions that the driver knows as they were.
smd_start-kept : (h : Hal) (info : FwInfo) → (smd_start h info).0 ≢ ok → (smd_start h info).2 ≡ info
unfolding smd_start start_after put_cfg_list cfg_vals put_cfg_tlv_u32
smd_start-kept h info bad =
    start_checked-kept
      (start_send 508 (record h {
        buf = (put_cfg_list cfg_vals (prepare_hal_buf (length start_msg) start_msg h).buf 16).1;
      }))
      info bad

update_buffer :
    (id value : ℕ) (rest : List ℕ)
    → write_at 8
        (u32 12)
        (write_at 4 (u32 24) (write_at 12 (tlv id value) (update_cfg_msg ++ rest)))
      ≡ (header update_cfg_req 24 ++ u32 12 ++ tlv id value) ++ drop 12 rest
unfolding update_cfg_msg frame header
update_buffer id value rest = refl

-- An update sends one message with one TLV in it.
smd_update_cfg-sent :
    (id value : ℕ) (h : Hal)
    → (smd_update_cfg id value h).1.sent
      ≡ h.sent ++ ((header update_cfg_req 24 ++ u32 12 ++ tlv id value) ∷ [])
unfolding smd_update_cfg prepare_hal_buf put_cfg_tlv_u32 update_cfg_msg frame header
smd_update_cfg-sent id value h =
    let msg = header update_cfg_req 24 ++ u32 12 ++ tlv id value in
    let rest = drop 12 h.buf in
    let buf = write_at 12 (tlv id value) (update_cfg_msg ++ rest) in
    let filled : Hal = record h { buf = write_at 8 (u32 12) (write_at 4 (u32 24) buf) } in
    ap (λ (s : Hal). s.sent) (then_check-state rsp_status_check (send_and_wait filled 24))
    ∙ send_and_wait-sent filled 24

ok_or_kept : (r : Ret) (info info' : FwInfo) → (r ≢ ok → info' ≡ info) → (r ≡ ok) ⊎ (info' ≡ info)
ok_or_kept ok info info' k = inl refl
ok_or_kept (err e) info info' k = inr (k (λ q. cc))
ok_or_kept (code n) info info' k = inr (k (λ q. cc))

-- Whatever becomes of it, a start sends one message, the type of the driver and the whole table of
-- 41 parameters as TLVs, and returns 0 or leaves the versions that the driver knows as they were; an
-- update sends one message with one TLV.
pub smd_start-smd_update_cfg :
    (h : Hal) (info : FwInfo) (id value : ℕ)
    → ((smd_start h info).1.sent ≡ h.sent ++ (full_start_msg ∷ []))
      × (((smd_start h info).0 ≡ ok) ⊎ ((smd_start h info).2 ≡ info))
      × ((smd_update_cfg id value h).1.sent
          ≡ h.sent ++ ((header update_cfg_req 24 ++ u32 12 ++ tlv id value) ∷ []))
smd_start-smd_update_cfg h info id value = (
  smd_start-sent h info,
  ok_or_kept (smd_start h info).0 info (smd_start h info).2 (smd_start-kept h info),
  smd_update_cfg-sent id value h,
)
