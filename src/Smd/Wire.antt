-- ===== src/Smd/Wire.antt =====
-- Every command sends one message, well framed and of its struct's size.
use wcn36xx.Common.{
  ℕ, zero, suc, ◌+◌, ◌≤◌, ◌<◌, ◌≡◌, refl, ◌∙◌, ap, List, [], ◌∷◌, ◌++◌, Option, none, some, length,
  length-append, length-field, length-replicate, take-append, le16_at, le32_at, Ret, ◌||◌, ◌==◌,
  if◌then◌else◌, arith,
}
use wcn36xx.Hal.MsgType.{MsgType, msg_code, start_req}
use wcn36xx.Hal.Layout.{frame}
use wcn36xx.Hal.Enums.{keep_alive_null_pkt, keep_alive_unsolicit_arp_rsp}
use wcn36xx.Smd.Send.{command, simple, rsp_status_check}
use wcn36xx.Smd.Effects.{command-sent}
use wcn36xx.Smd.State.{Hal}
use wcn36xx.Smd.Dispatch.{Request, keep_alive}

pub msg_code-lt : (t : MsgType) → msg_code t < 191
unfolding msg_code
msg_code-lt start_req = omega arith
msg_code-lt _ = omega arith

-- The firmware can tell what the message is and where it ends.
pub record IsFramed (t : MsgType) (n : ℕ) (m : List ℕ) : Type 0 where
  pub kind : le16_at 0 m ≡ msg_code t
  pub version : le16_at 2 m ≡ 0
  pub counted : le32_at 4 m ≡ n
  pub whole : length m ≡ n

pub frame-IsFramed :
    (t : MsgType) (body : List ℕ) (n : ℕ)
    → 8 + length body ≡ n
    → n ≤ 4096
    → IsFramed t n (frame t body)
unfolding frame
frame-IsFramed t body n e small = record {
  kind = omega (arith, msg_code-lt t);
  version = omega arith;
  counted = omega arith;
  whole = omega arith;
}

pub ruleset sizes = (length-append, length-field, length-replicate)

abbrev pub AllFramed : MsgType → ℕ → List (List ℕ) → Type 0
AllFramed t n [] = Unit {0}
AllFramed t n (m ∷ ms) = IsFramed t n m × AllFramed t n ms

-- How many messages a command sends: none for a keep-alive of an unknown kind, otherwise one.
abbrev pub messages_of : Request → ℕ
messages_of (keep_alive i kind) =
    if kind == keep_alive_null_pkt || kind == keep_alive_unsolicit_arp_rsp then 1 else 0
messages_of _ = 1

-- From `h` to `h'`, `k` messages of type `t` and size `n` were sent, and nothing else.
pub record Sends (t : MsgType) (n k : ℕ) (h h' : Hal) : Type 0 where
  pub messages : List (List ℕ)
  pub appended : h'.sent ≡ h.sent ++ messages
  pub framed : AllFramed t n messages
  pub counted : length messages ≡ k

pub one_command :
    (t : MsgType) (body : List ℕ) (n : ℕ) (check : List ℕ → ℕ → Ret) (h : Hal)
    → 8 + length body ≡ n
    → n ≤ 4096
    → Sends t n 1 h (command (frame t body) check h).1
one_command t body n check h e small = record {
  messages = frame t body ∷ [];
  appended = command-sent (frame t body) check h;
  framed = (frame-IsFramed t body n e small, tt);
  counted = refl;
}

pub one_simple :
    (t : MsgType) (body : List ℕ) (n : ℕ) (h : Hal)
    → 8 + length body ≡ n
    → n ≤ 4096
    → Sends t n 1 h (simple (frame t body) h).1
unfolding simple
one_simple t body n h e small = one_command t body n rsp_status_check h e small
