-- ===== src/Mac/Start/Running.antt =====
-- The steps of a start behind the command buffer: the DMA engine and the exchange of capabilities.
use wcn36xx.Common.{
  ℕ, zero, suc, ◌≡◌, refl, sym, ap, ◌∙◌, Bool, true, false, if◌then◌else◌, Option, none, some, List,
  [], ◌∷◌, ◌++◌, length, get_or, replicate, length-replicate, ok, arith,
}
use mathlib.Core.List.{map}
use wcn36xx.Smd.State.{Hal}
use wcn36xx.Smd.Config.{is_fw_version, smd_update_cfg}
use wcn36xx.Smd.Caps.{smd_feature_caps_exchange}
use wcn36xx.Dxe.State.{Skb, Block, tx_l, tx_h, rx_l, rx_h, no_block, valid}
use wcn36xx.Dxe.Tx.{size}
use wcn36xx.Dxe.Irq.{AreRings, AreRxRings}
use wcn36xx.Dxe.Setup.{Engine, first_of, others, dxe_init}
use wcn36xx.Dxe.Setup.Ready.{given, dxe_init-Started, tx_side, rx_side}
use wcn36xx.Dxe.Setup.Writes.{irq_outcome}
use wcn36xx.Dxe.Setup.Fresh.{FreshTx, FreshRx}
use wcn36xx.Mac.Start.{
  Device, Run, hal_of, with_hal, fresh_channel, detect_chip_version, start_engine, init_engine,
  exchange_caps,
}
use wcn36xx.Mac.Start.Leaks.{then_run-some}

get_or-replicate {ℓ} : {A : Type ℓ} (n j : ℕ) (a : A) → get_or (replicate n a) j a ≡ a
get_or-replicate zero j a = refl
get_or-replicate (suc n) zero a = refl
get_or-replicate (suc n) (suc j) a = get_or-replicate n j a

FreshTx-low : FreshTx (fresh_channel tx_l)
unfolding fresh_channel size
FreshTx-low =
    let n : length (replicate 128 no_block) ≡ 128 = length-replicate 128 no_block in
    record {
      sends = refl;
      even_size = refl;
      not_small = omega (arith, n);
      head_0 = refl;
      tail_0 = refl;
      empty = λ j lt. (
        ap (λ (b : Block). b.skb) (get_or-replicate 128 j no_block),
        ap (λ (b : Block). valid b.desc) (get_or-replicate 128 j no_block),
      );
    }

FreshTx-high : FreshTx (fresh_channel tx_h)
unfolding fresh_channel size
FreshTx-high = record {
  sends = refl;
  even_size = refl;
  not_small = omega arith;
  head_0 = refl;
  tail_0 = refl;
  empty = λ j lt. (
    ap (λ (b : Block). b.skb) (get_or-replicate 10 j no_block),
    ap (λ (b : Block). valid b.desc) (get_or-replicate 10 j no_block),
  );
}

FreshRx-low : FreshRx (fresh_channel rx_l)
unfolding fresh_channel size
FreshRx-low =
    let n : length (replicate 512 no_block) ≡ 512 = length-replicate 512 no_block in
    record { kind = refl; not_empty = omega (arith, n); head_0 = refl }

FreshRx-high : FreshRx (fresh_channel rx_h)
unfolding fresh_channel size
FreshRx-high = record { kind = refl; not_empty = omega arith; head_0 = refl }

size_rx_l : size (fresh_channel rx_l) ≡ 512
unfolding fresh_channel size
size_rx_l = length-replicate 512 no_block

size_rx_h : size (fresh_channel rx_h) ≡ 40
unfolding fresh_channel size
size_rx_h = length-replicate 40 no_block

-- What the DMA engine is granted: memory for the descriptors of the four channels and for the buffers
-- of the receive channels, and both interrupt lines.
pub record EngineGranted (e : Engine) : Type 0 where
  pub a : ℕ
  pub b : ℕ
  pub c : ℕ
  pub d : ℕ
  pub more : List (Option ℕ)
  pub low_buffers : List Skb
  pub high_buffers : List Skb
  pub left : List (Option Skb)
  pub coherent_is : e.coherent ≡ some a ∷ some b ∷ some c ∷ some d ∷ more
  pub skbs_are : e.skbs ≡ map some low_buffers ++ (map some high_buffers ++ left)
  pub low_count : length low_buffers ≡ 512
  pub high_count : length high_buffers ≡ 40
  pub tx_line : first_of e.irqs ≡ none
  pub rx_line : first_of (others e.irqs) ≡ none

-- The device comes up with the engine `e`.
pub record EngineUp (x : Device) (r : Run) : Type 0 where
  pub engine : Engine
  pub returns :
      r
      ≡ some (
        ok,
        record x {
          engine = engine;
          ind = record x.ind { hal = (smd_update_cfg 83 1 (hal_of x)).1; vifs = [] };
        },
      )
  pub tx : AreRings (tx_side engine)
  pub rx : AreRxRings (rx_side engine)

pub init_engine-EngineUp : (x : Device) → EngineGranted x.engine → EngineUp x (init_engine x)
unfolding init_engine start_engine
init_engine-EngineUp x g =
    let e : Engine = record x.engine {
      tx_l = fresh_channel tx_l;
      tx_h = fresh_channel tx_h;
      rx_l = fresh_channel rx_l;
      rx_h = fresh_channel rx_h;
      data_pool = x.pools.data_pool;
      mgmt_pool = x.pools.mgmt;
      is_3680 = detect_chip_version x.fw_feat_caps;
    } in
    let g' = given e g.a g.b g.c g.d g.more g.low_buffers g.high_buffers g.left in
    let same : e ≡ g' = λ i. record e { coherent = g.coherent_is i; skbs = g.skbs_are i } in
    let s =
      dxe_init-Started e g.a g.b g.c g.d g.more g.low_buffers g.high_buffers g.left FreshTx-low
        FreshTx-high FreshRx-low FreshRx-high (g.low_count ∙ sym size_rx_l)
        (g.high_count ∙ sym size_rx_h) in
    let granted : (irq_outcome (first_of e.irqs) (first_of (others e.irqs))).0 ≡ ok =
      rw (g.tx_line, g.rx_line) refl in
    record {
      engine = s.after;
      returns =
          then_run-some (dxe_init e) _ (ok, s.after)
            (ap dxe_init same ∙ s.returns ∙ ap (λ r. some (r, s.after)) granted);
      tx = s.tx;
      rx = s.rx;
    }

pub chosen {ℓ} : {A : Type ℓ} (b : Bool) (x y : A) → b ≡ true → (if b then x else y) ≡ x
chosen b x y e = rw e refl

-- The exchange of the capabilities changes nothing but the channel and the capabilities.
abbrev pub exchanged : Hal → List ℕ → Device → Device
exchanged h caps x = with_hal h (record x { fw_feat_caps = caps })

exchanged_or :
    (b : Bool) (h : Hal) (caps : List ℕ) (x : Device)
    → (h' : Hal) × (caps' : List ℕ) × ((if b then x else exchanged h caps x) ≡ exchanged h' caps' x)
exchanged_or true h caps x = (hal_of x, x.fw_feat_caps, refl)
exchanged_or false h caps x = (h, caps, refl)

pub exchange_caps_lem :
    (x : Device) → (h : Hal) × (caps : List ℕ) × (exchange_caps x ≡ exchanged h caps x)
unfolding exchange_caps
exchange_caps_lem x =
    let r = smd_feature_caps_exchange (hal_of x) x.fw_feat_caps in
    exchanged_or (is_fw_version x.ind.info 1 2 2 24) r.1 r.2 x
