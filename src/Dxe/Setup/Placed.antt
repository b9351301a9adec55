-- ===== src/Dxe/Setup/Placed.antt =====
-- The loop of `wcn36xx_dxe_init_descs` on a channel of any kind: what each block is left with.
use wcn36xx.Common.{
  ℕ, zero, suc, ◌+◌, ◌-◌, ◌*◌, ◌≤◌, ◌<◌, ◌≡◌, ◌≢◌, refl, ap, ◌∙◌, inl, inr, Bool, Bool-cases,
  ==_iff, ltb, ◌==◌, Option, arith,
}
use mathlib.Core.Path.{subst}
use wcn36xx.Dxe.State.{Skb, Block, Channel, block_at, next, valid, update}
use wcn36xx.Dxe.Tx.{size}
use wcn36xx.Dxe.Tx.Write.{skb_at, update_self, update_ne, size-update}
use wcn36xx.Dxe.Init.{desc_size, first_desc, link_to, place_desc, link_desc, descs_loop}

-- What is followed of a block: its frame, whether its descriptor is valid, and the bus address of that.
abbrev pub View : Type 0
View = Option Skb × Bool × ℕ

abbrev pub view : Block → View
view b = (b.skb, valid b.desc, b.desc_phy_addr)

abbrev pub view_at : Channel → ℕ → View
view_at ch j = view (block_at ch j)

-- The channel `done` has the shape of `ch`.
pub record SameShape (ch done : Channel) : Type 0 where
  pub same_size : size done ≡ size ch
  pub same_head : done.head ≡ ch.head
  pub same_type : done.ch_type ≡ ch.ch_type

pub SameShape-trans : (a b c : Channel) → SameShape a b → SameShape b c → SameShape a c
SameShape-trans a b c p q = record {
  same_size = q.same_size ∙ p.same_size;
  same_head = q.same_head ∙ p.same_head;
  same_type = q.same_type ∙ p.same_type;
}

pub update-SameShape : (i : ℕ) (b : Block) (ch : Channel) → SameShape ch (update i b ch)
unfolding update
update-SameShape i b ch = record {
  same_size = size-update ch i b;
  same_head = refl;
  same_type = refl;
}

-- A write at `i`, seen at `j`.
pub update_at {ℓ} :
    {A : Type ℓ} (f : Block → A) (i j : ℕ) (b : Block) (ch : Channel)
    → i < size ch
    → (i ≡ j → f (block_at (update i b ch) j) ≡ f b)
      × (i ≢ j → f (block_at (update i b ch) j) ≡ f (block_at ch j))
update_at f i j b ch lt = (
  λ e. subst (λ k. f (block_at (update i b ch) k) ≡ f b) e (ap f (update_self ch i b lt)),
  λ ne. ap f (update_ne ch i j b ne),
)

-- A write that keeps the view of its block keeps all views.
update-same_view :
    (i : ℕ) (b : Block) (ch : Channel)
    → i < size ch
    → view b ≡ view_at ch i
    → (j : ℕ) → view_at (update i b ch) j ≡ view_at ch j
update-same_view i b ch lt same j = elim (Bool-cases (i == j)) [
  | inl e ↦
      let here = (==_iff i j).0 e in
      (update_at view i j b ch lt).0 here ∙ same ∙ ap (view_at ch) here
  | inr e ↦ (update_at view i j b ch lt).1 (λ q. absurd (ground arith))
]

-- Linking keeps the shape and the views.
record Relinked (ch done : Channel) : Type 0 where
  shape : SameShape ch done
  views : (j : ℕ) → view_at done j ≡ view_at ch j

link-Relinked :
    (i addr : ℕ) (ch : Channel)
    → i < size ch
    → Relinked ch (update i (link_to addr (block_at ch i)) ch)
unfolding link_to
link-Relinked i addr ch lt =
    let b = link_to addr (block_at ch i) in
    record { shape = update-SameShape i b ch; views = update-same_view i b ch lt refl }

link_desc-Relinked :
    (i cur prev : ℕ) (ch : Channel)
    → cur < size ch
    → prev < size ch
    → Relinked ch (link_desc i cur prev ch)
unfolding link_desc
link_desc-Relinked i cur prev ch lt lt' =
    let to_cur = update prev (link_to (block_at ch cur).desc_phy_addr (block_at ch prev)) ch in
    let linked = link-Relinked prev (block_at ch cur).desc_phy_addr ch lt' in
    elim (Bool-cases (i == 0)) [
      | inl e ↦ rw e (link-Relinked cur 0 ch lt)
      | inr e ↦ elim (Bool-cases (ltb i (size ch - 1))) [
        | inl f ↦ rw (e, f) linked
        | inr f ↦ elim (Bool-cases (i == size ch - 1)) [
          | inl g ↦
              let to_first = (block_at to_cur ch.head).desc_phy_addr in
              let last = update cur (link_to to_first (block_at to_cur cur)) to_cur in
              let second : Relinked to_cur last =
                link-Relinked cur to_first to_cur (omega (arith, linked.shape.same_size)) in
              let both : Relinked ch last = record {
                shape = SameShape-trans ch to_cur last linked.shape second.shape;
                views = λ j. second.views j ∙ linked.views j;
              } in
              rw (e, f, g) both
          | inr g ↦
              let kept : Relinked ch ch = record {
                shape = record { same_size = refl; same_head = refl; same_type = refl };
                views = λ j. refl;
              } in
              rw (e, f, g) kept
        ]
      ]
    ]

-- What the loop leaves when it starts at block `i` of `ch`.
pub record Placed (dma_addr i : ℕ) (ch done : Channel) : Type 0 where
  pub shape : SameShape ch done
  pub before : (j : ℕ) → j < i → view_at done j ≡ view_at ch j
  pub after :
      (j : ℕ)
      → i ≤ j
      → j < size ch
      → view_at done j ≡ (skb_at ch j, valid (first_desc ch.ch_type), dma_addr + j * desc_size)

later :
    (linked ch : Channel) (dma_addr j : ℕ)
    → linked.ch_type ≡ ch.ch_type
    → view_at linked j ≡ view_at ch j
    → ◌≡◌ {A = View}
        (skb_at linked j, valid (first_desc linked.ch_type), dma_addr + j * desc_size)
        (skb_at ch j, valid (first_desc ch.ch_type), dma_addr + j * desc_size)
later linked ch dma_addr j t v = cc

pub descs_loop-Placed :
    (dma_addr k i cur prev : ℕ) (ch : Channel)
    → i + k ≡ size ch
    → (1 ≤ k → cur ≡ i)
    → prev < size ch
    → Placed dma_addr i ch (descs_loop dma_addr k i cur prev ch)
unfolding descs_loop place_desc
descs_loop-Placed dma_addr zero i cur prev ch e place lt = record {
  shape = record { same_size = refl; same_head = refl; same_type = refl };
  before = λ j j_lt. refl;
  after = λ j le j_lt. absurd (omega arith);
}
descs_loop-Placed dma_addr (suc k) i cur prev ch e place lt =
    let here : cur ≡ i = place (omega arith) in
    let i_lt : i < size ch = omega arith in
    let b = record (block_at ch i) {
      desc = first_desc ch.ch_type;
      desc_phy_addr = dma_addr + i * desc_size;
    } in
    let placed = place_desc dma_addr i i ch in
    let to_placed : SameShape ch placed = update-SameShape i b ch in
    let linked = link_desc i i prev placed in
    let r =
      link_desc-Relinked i i prev placed (omega (arith, to_placed.same_size))
        (omega (arith, to_placed.same_size)) in
    let to_linked : SameShape ch linked = SameShape-trans ch placed linked to_placed r.shape in
    let rest =
      descs_loop-Placed dma_addr k (suc i) (next (size ch) i) i linked
        (omega (arith, to_linked.same_size)) (λ one. ground arith)
        (omega (arith, to_linked.same_size)) in
    let other : (j : ℕ) → i ≢ j → view_at linked j ≡ view_at ch j =
      λ j ne. r.views j ∙ (update_at view i j b ch i_lt).1 ne in
    let own : view_at linked i ≡ view b = r.views i ∙ (update_at view i i b ch i_lt).0 refl in
    rw here (record {
      shape =
          SameShape-trans ch linked (descs_loop dma_addr k (suc i) (next (size ch) i) i linked)
            to_linked rest.shape;
      before = λ j j_lt. rest.before j (omega arith) ∙ other j (λ q. absurd (omega arith));
      after = λ j le j_lt. elim (Bool-cases (i == j)) [
        | inl f ↦
            let same = (==_iff i j).0 f in
            subst
              (λ m.
                view_at (descs_loop dma_addr k (suc i) (next (size ch) i) i linked) m
                ≡ (skb_at ch m, valid (first_desc ch.ch_type), dma_addr + m * desc_size))
              same (rest.before i (omega arith) ∙ own)
        | inr f ↦
            rest.after j (ground arith) (omega (arith, to_linked.same_size))
            ∙ later linked ch dma_addr j to_linked.same_type (other j (λ q. absurd (ground arith)))
      ];
    })
