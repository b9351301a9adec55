-- ===== src/Mac/Bss/Order.antt =====
-- The order of the commands in which `wcn36xx_bss_info_changed` joins, leaves and associates.
use wcn36xx.Common.{
  ℕ, ◌≡◌, refl, sym, ap, ◌∙◌, inl, inr, Bool, true, false, Bool-cases, Option, none, some, List, [],
  ◌∷◌, ◌++◌, append_assoc, append-nil, length, le16_at, if◌then◌else◌, arith,
}
use wcn36xx.Hal.MsgType.{
  MsgType, msg_code, join_req, config_bss_req, config_sta_req, delete_bss_req, set_link_st_req,
}
use wcn36xx.Hal.Enums.{LinkState, idle_state, postassoc_state, bss_invalid_idx}
use wcn36xx.Mac.Rates.{update_allowed_rates}
use wcn36xx.Smd.State.{Hal}
use mathlib.Core.Bool.{true≢false}
use wcn36xx.Smd.Wire.{Sends, AllFramed}
use wcn36xx.Smd.Dispatch.{join, delete_bss, set_link_st, run_request, kind_of, size_of}
use wcn36xx.Smd.Framed.{run_request-Sends}
use wcn36xx.Smd.Configure.{
  config_bss, config_sta, configure, configure_kind, configure_size, configure-Sends,
}
use wcn36xx.Smd.Answers.{is_given, smd_config_bss-given}
use wcn36xx.Smd.Objects.{Peer, Radio}
use wcn36xx.Smd.Bss.Send.{Net}
use wcn36xx.Mac.Bss.{
  Change, BssState, Flow, is_zero_addr, configure_bss, join_bss, leave_bss, on_bssid, set_link,
  configure_sta, associate, on_assoc, state_after,
}

-- The types in the headers of messages.
abbrev pub message_kinds : List (List ℕ) → List ℕ
message_kinds [] = []
message_kinds (m ∷ ms) = le16_at 0 m ∷ message_kinds ms

abbrev pub type_codes : List MsgType → List ℕ
type_codes [] = []
type_codes (t ∷ ts) = msg_code t ∷ type_codes ts

-- From `h` to `h'`, messages of the types `ts` were sent, in this order, and nothing else.
pub record Sent (ts : List MsgType) (h h' : Hal) : Type 0 where
  pub messages : List (List ℕ)
  pub appended : h'.sent ≡ h.sent ++ messages
  pub kinds : message_kinds messages ≡ type_codes ts

message_kinds-append :
    (xs ys : List (List ℕ)) → message_kinds (xs ++ ys) ≡ message_kinds xs ++ message_kinds ys
message_kinds-append [] ys = refl
message_kinds-append (x ∷ xs) ys = ap (λ r. le16_at 0 x ∷ r) (message_kinds-append xs ys)

type_codes-append : (ts us : List MsgType) → type_codes (ts ++ us) ≡ type_codes ts ++ type_codes us
type_codes-append [] us = refl
type_codes-append (t ∷ ts) us = ap (λ r. msg_code t ∷ r) (type_codes-append ts us)

nothing : (h : Hal) → Sent [] h h
nothing h = record { messages = []; appended = sym (append-nil h.sent); kinds = refl }

both :
    (ts us : List MsgType) (h h' h'' : Hal) → Sent ts h h' → Sent us h' h'' → Sent (ts ++ us) h h''
both ts us h h' h'' a b = record {
  messages = a.messages ++ b.messages;
  appended =
      b.appended ∙ ap (λ s. s ++ b.messages) a.appended ∙ append_assoc h.sent a.messages b.messages;
  kinds =
      message_kinds-append a.messages b.messages
      ∙ ap (λ k. k ++ message_kinds b.messages) a.kinds
      ∙ ap (λ k. type_codes ts ++ k) b.kinds
      ∙ sym (type_codes-append ts us);
}

one_kind :
    (t : MsgType) (n : ℕ) (ms : List (List ℕ))
    → length ms ≡ 1
    → AllFramed t n ms
    → message_kinds ms ≡ type_codes (t ∷ [])
one_kind t n [] e f = absurd (omega arith)
one_kind t n (m ∷ []) e f = ap (λ k. k ∷ []) f.0.kind
one_kind t n (m ∷ m' ∷ ms) e f = absurd (omega arith)

one : (t : MsgType) (n : ℕ) (h h' : Hal) → Sends t n 1 h h' → Sent (t ∷ []) h h'
one t n h h' s = record {
  messages = s.messages;
  appended = s.appended;
  kinds = one_kind t n s.messages s.counted s.framed;
}

either :
    (b : Bool) (ts us : List MsgType) (f g : Flow) (h : Hal)
    → Sent ts h (state_after f).hal
    → Sent us h (state_after g).hal
    → Sent (if b then ts else us) h (state_after (if b then f else g)).hal
either true ts us f g h a b = a
either false ts us f g h a b = b

-- The commands of a change of the network, and of an association.
abbrev pub bssid_commands : Change → List MsgType
bssid_commands c =
    if is_zero_addr c.bssid then delete_bss_req ∷ [] else join_req ∷ config_bss_req ∷ []

abbrev pub assoc_commands : Change → List MsgType
assoc_commands c =
    if c.assoc
    then (if is_given c.found then set_link_st_req ∷ config_bss_req ∷ config_sta_req ∷ [] else [])
    else set_link_st_req ∷ []

set_link-Sent :
    (bssid : List ℕ) (st : LinkState) (s : BssState)
    → Sent (set_link_st_req ∷ []) s.hal (set_link bssid st s).hal
unfolding set_link run_request kind_of size_of
set_link-Sent bssid st s =
    one set_link_st_req 24 _ _ (run_request-Sends (set_link_st bssid s.vif.addr st) s.hal)

configure_bss-Sent :
    (wcn : Radio) (sta : Option Peer) (bssid : List ℕ) (update : Bool) (s : BssState)
    → Sent (config_bss_req ∷ []) s.hal (configure_bss wcn sta bssid update s).hal
unfolding configure_bss configure configure_kind
configure_bss-Sent wcn sta bssid update s =
    let net : Net = record { vif = s.vif; sta = sta } in
    let r = config_bss wcn net bssid update in
    one config_bss_req (configure_size r) _ _ (configure-Sends r s.hal)

configure_bss-given :
    (wcn : Radio) (sta : Peer) (bssid : List ℕ) (s : BssState)
    → is_given (configure_bss wcn (some sta) bssid true s).sta ≡ true
unfolding configure_bss
configure_bss-given wcn sta bssid s =
    let net : Net = record { vif = s.vif; sta = some sta } in
    smd_config_bss-given wcn net sta bssid s.hal

configure_sta-Sent :
    (wcn : Radio) (aid : ℕ) (sta : Option Peer) (s : BssState)
    → is_given sta ≡ true
    → Sent (config_sta_req ∷ []) s.hal (configure_sta wcn aid sta s).hal
unfolding configure_sta configure configure_kind
configure_sta-Sent wcn aid none s e = absurd (true≢false (sym e))
configure_sta-Sent wcn aid (some sta) s e =
    let r = config_sta wcn s.vif (record sta { aid = aid }) in
    one config_sta_req (configure_size r) _ _ (configure-Sends r s.hal)

leave_bss-Sent : (s : BssState) → Sent (delete_bss_req ∷ []) s.hal (leave_bss s).hal
unfolding leave_bss run_request kind_of size_of
leave_bss-Sent s = one delete_bss_req 9 _ _ (run_request-Sends (delete_bss s.vif.bss_index) s.hal)

join_bss-Sent :
    (wcn : Radio) (c : Change) (s : BssState)
    → Sent (join_req ∷ config_bss_req ∷ []) s.hal (join_bss wcn c s).hal
unfolding join_bss run_request kind_of size_of
join_bss-Sent wcn c s =
    let q = join wcn.is_ht40_minus wcn.is_ht40_plus c.bssid s.vif.addr wcn.channel in
    let joined : BssState = record s {
      hal = (run_request q s.hal).1;
      vif = record s.vif { is_joining = true; bss_index = bss_invalid_idx };
    } in
    both (join_req ∷ []) (config_bss_req ∷ []) s.hal joined.hal _
      (one join_req 31 _ _ (run_request-Sends q s.hal))
      (configure_bss-Sent wcn none c.bssid false joined)

on_bssid-Sent :
    (wcn : Radio) (c : Change) (s : BssState)
    → Sent (bssid_commands c) s.hal (state_after (on_bssid wcn c s)).hal
unfolding on_bssid state_after
on_bssid-Sent wcn c s = elim (Bool-cases (is_zero_addr c.bssid)) [
  | inl e ↦ rw e (leave_bss-Sent s)
  | inr e ↦ rw e (join_bss-Sent wcn c s)
]

associate-Sent :
    (wcn : Radio) (c : Change) (sta : Option Peer) (s : BssState)
    → Sent
        (if is_given sta then set_link_st_req ∷ config_bss_req ∷ config_sta_req ∷ [] else [])
        s.hal
        (state_after (associate wcn c sta s)).hal
unfolding associate state_after
associate-Sent wcn c none s = nothing s.hal
associate-Sent wcn c (some sta) s =
    let rated : Peer = record sta {
      supported_rates = update_allowed_rates wcn.band c.found_rates;
    } in
    let linked = set_link c.bssid postassoc_state s in
    let configured = configure_bss wcn (some rated) c.bssid true linked in
    both (set_link_st_req ∷ []) (config_bss_req ∷ config_sta_req ∷ []) s.hal linked.hal _
      (set_link-Sent c.bssid postassoc_state s)
      (both (config_bss_req ∷ []) (config_sta_req ∷ []) linked.hal configured.hal _
        (configure_bss-Sent wcn (some rated) c.bssid true linked)
        (configure_sta-Sent wcn c.aid configured.sta configured
          (configure_bss-given wcn rated c.bssid linked)))

on_assoc-Sent :
    (wcn : Radio) (c : Change) (s : BssState)
    → Sent (assoc_commands c) s.hal (state_after (on_assoc wcn c s)).hal
unfolding on_assoc state_after
on_assoc-Sent wcn c s =
    let s' : BssState = record s {
      vif = record s.vif { is_joining = false; sta_assoc = c.assoc };
    } in
    either c.assoc _ _ _ _ s.hal (associate-Sent wcn c c.found s')
      (set_link-Sent c.bssid idle_state s')

-- A changed BSSID sends delete_bss when the new one is zero, and join followed by config_bss
-- otherwise. A change of the association sends set_link_st alone when it ended, nothing when the
-- station of the network is not found, and otherwise set_link_st, config_bss and config_sta. All this
-- in this order, whatever becomes of the commands before, and with nothing else.
pub on_bssid-on_assoc :
    (wcn : Radio) (c : Change) (s : BssState)
    → Sent (bssid_commands c) s.hal (state_after (on_bssid wcn c s)).hal
      × Sent (assoc_commands c) s.hal (state_after (on_assoc wcn c s)).hal
on_bssid-on_assoc wcn c s = (on_bssid-Sent wcn c s, on_assoc-Sent wcn c s)
