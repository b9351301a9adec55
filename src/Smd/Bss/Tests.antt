-- ===== src/Smd/Bss/Tests.antt =====
-- Runs of the commands that configure stations and networks.
use wcn36xx.Hal.MsgType.{exit_bmps_req}
use wcn36xx.Smd.Power.{smd_exit_bmps}
use wcn36xx.Smd.Dispatch.{exit_bmps, run_request, kind_of, size_of}
use wcn36xx.Common.{
  ℕ, ◌≡◌, refl, true, false, List, [], ◌∷◌, ◌++◌, none, some, byte_at, u16, u32, err, eio,
}
use wcn36xx.Hal.MsgType.{config_sta_rsp, msg_code}
use wcn36xx.Mac.Rates.{band_2ghz}
use wcn36xx.Smd.Receive.{is_one_of}
use wcn36xx.Smd.Wire.{Sends}
use wcn36xx.Smd.Sta.{no_sta_params, sta_params_body, sta_params_v1_body, convert_sta_to_v1}
use wcn36xx.Smd.Sta.Send.{smd_config_sta, smd_add_sta_self}
use wcn36xx.Smd.Bss.Fill.{bss_nw_type, nw_11b, nw_11n}
use wcn36xx.Smd.Bss.Send.{smd_config_bss}
use wcn36xx.Smd.Bss.Layouts.{SameFields, convert_sta_to_v1-SameFields}
use wcn36xx.Smd.Bss.Sample.{radio, vif, sta, net, answering}
use wcn36xx.Smd.Configure.{
  config_bss, configure, configure_kind, configure_size, run_request-configure,
}
use wcn36xx.Smd.Answers.{Answered, told_sta, told_bss, told_self, smd_config_sta-Answered}

abbrev config_sta_answer : ℕ → List ℕ
config_sta_answer status =
    u16 (msg_code config_sta_rsp)
    ++ u16 0
    ++ u32 21
    ++ u32 status
    ++ (7 ∷ 0 ∷ 8 ∷ 0 ∷ 0 ∷ 9 ∷ 0 ∷ 0 ∷ 0 ∷ [])

told :
    (smd_config_sta radio vif sta (answering (config_sta_answer 0))).2
    ≡ record sta { sta_index = 7; dpu_desc_index = 8; ucast_dpu_sign = 9 }
unfolding smd_config_sta is_one_of
told = refl

refused_by_firmware : (smd_config_sta radio vif sta (answering (config_sta_answer 1))).0 ≡ err eio
unfolding smd_config_sta is_one_of
refused_by_firmware = refl

-- Only the message for firmware 1.2.2.24 has the A-MSDU size, at byte 25 of the parameters.
new_layout : byte_at 25 (sta_params_body (record no_sta_params { max_amsdu_size = 1 })) ≡ 1
unfolding sta_params_body
new_layout = refl

old_layout :
    byte_at 25
      (sta_params_v1_body (convert_sta_to_v1 (record no_sta_params { max_amsdu_size = 1 })))
    ≡ 0
unfolding sta_params_v1_body convert_sta_to_v1
old_layout = refl

no_ht : bss_nw_type band_2ghz none ≡ nw_11b
unfolding bss_nw_type
no_ht = refl

with_ht : bss_nw_type band_2ghz (some sta) ≡ nw_11n
unfolding bss_nw_type
with_ht = refl

run_request-configure_example :
    Sends exit_bmps_req 10 1 (answering []) (smd_exit_bmps 0 (answering [])).1
    × Sends
        (configure_kind (config_bss radio net sta.addr false))
        (configure_size (config_bss radio net sta.addr false))
        1
        (answering [])
        (configure (config_bss radio net sta.addr false) (answering []))
unfolding run_request kind_of size_of
run_request-configure_example =
    run_request-configure (exit_bmps 0) (config_bss radio net sta.addr false) (answering [])

convert_sta_to_v1-SameFields_example :
    SameFields
      (sta_params_body (record no_sta_params { aid = 3; max_amsdu_size = 0 }))
      (sta_params_v1_body (convert_sta_to_v1 (record no_sta_params { aid = 3 })))
convert_sta_to_v1-SameFields_example =
    convert_sta_to_v1-SameFields (record no_sta_params { aid = 3 })

smd_config_sta-Answered_example :
    Answered 21 (told_sta sta) sta (smd_config_sta radio vif sta (answering (config_sta_answer 0)))
    × Answered 29
        (told_bss net)
        net
        (smd_config_bss radio net sta.addr true (answering (config_sta_answer 0)))
    × Answered 15 (told_self vif) vif (smd_add_sta_self vif (answering (config_sta_answer 0)))
smd_config_sta-Answered_example =
    smd_config_sta-Answered radio vif sta net sta.addr true (answering (config_sta_answer 0))
