-- ===== src/Dxe/Setup/Writes.antt =====
-- The register writes of a start in their order, and asking for the interrupt lines.
use wcn36xx.Common.{
  ℕ, ◌≡◌, refl, ap, Bool, if◌then◌else◌, bit_or, Option, none, some, List, [], ◌∷◌, ◌++◌,
  append_assoc, Ret, ok, err, Errno,
}
use wcn36xx.Dxe.Setup.{
  Call, request_irq, enable_irq_wake, free_irq, tx_irq, rx_irq, Engine, first_of, others,
  first_read, write, request_rx_irq, request_tx_irq, request_irqs,
}

abbrev pub reset_writes : Bool → List Call
reset_writes is_3680 =
    write 0x202000 0x5c89 ∷ write (if is_3680 then 0x2050dc else 0x200b10) 0xA0011 ∷ []

abbrev pub tx_writes : ℕ → ℕ → ℕ → List Call
tx_writes next_desc dest addr = write next_desc addr ∷ write dest 0x17 ∷ []

-- The register writes of a start, by the values that are read in between, by the addresses of the
-- first descriptors of the four channels, and by the addresses that the first descriptors of the
-- receive channels are linked to.
abbrev pub startup : Bool → List ℕ → ℕ → ℕ → ℕ → ℕ → ℕ → ℕ → List Call
startup is_3680 reads a b c d next_l next_h =
    write 0x202000 0x5c89
    ∷ write (if is_3680 then 0x2050dc else 0x200b10) 0xA0011
    ∷ write 0x20241C a
    ∷ write 0x202414 0x17
    ∷ write 0x202018 (bit_or (first_read (others reads)) 1)
    ∷ write 0x20251C b
    ∷ write 0x202514 0x17
    ∷ write 0x202018 (bit_or (first_read (others (others (others reads)))) 16)
    ∷ write 0x20245C c
    ∷ write 0x20244C 0xB
    ∷ write 0x202454 next_l
    ∷ write 0x202440 0x847EAD2F
    ∷ write 0x202018 (bit_or (first_read (others (others (others (others reads))))) 2)
    ∷ write 0x2024DC d
    ∷ write 0x2024CC 0x4
    ∷ write 0x2024D4 next_h
    ∷ write 0x2024C0 0x84FED12F
    ∷ write 0x202018 (bit_or (first_read (others (others (others (others (others reads)))))) 8)
    ∷ []

-- What comes of asking for both interrupt lines.
abbrev pub irq_outcome : Option Errno → Option Errno → Ret × List Call
irq_outcome (some why) o = (err why, request_irq tx_irq ∷ [])
irq_outcome none (some why) =
    (err why, request_irq tx_irq ∷ request_irq rx_irq ∷ free_irq tx_irq ∷ [])
irq_outcome none none = (ok, request_irq tx_irq ∷ request_irq rx_irq ∷ enable_irq_wake rx_irq ∷ [])

-- The device after a call whose calls are `cs`.
abbrev pub Asked : Engine → Ret × List Call → Ret × Engine → Type 0
Asked x o r =
    (irqs : List (Option Errno)) × (r ≡ (o.0, record x { irqs = irqs; calls = x.calls ++ o.1 }))

Asked-request_rx_irq :
    (o : Option Errno) (x : Engine) (calls : List Call)
    → Asked
        (record x { calls = calls })
        (irq_outcome none o)
        (request_rx_irq o (record x { calls = calls ++ request_irq tx_irq ∷ [] }))
unfolding request_rx_irq
Asked-request_rx_irq (some why) x calls =
    (x.irqs, ap (λ cs. (err why, record x { calls = cs })) (append_assoc calls _ _))
Asked-request_rx_irq none x calls =
    (x.irqs, ap (λ cs. (ok, record x { calls = cs })) (append_assoc calls _ _))

Asked-request_tx_irq :
    (o : Option Errno) (x : Engine) → Asked x (irq_outcome o (first_of x.irqs)) (request_tx_irq o x)
unfolding request_tx_irq
Asked-request_tx_irq (some why) x = (x.irqs, refl)
Asked-request_tx_irq none x =
    Asked-request_rx_irq (first_of x.irqs) (record x { irqs = others x.irqs }) x.calls

pub request_irqs_lem :
    (x : Engine)
    → Asked x (irq_outcome (first_of x.irqs) (first_of (others x.irqs))) (request_irqs x)
unfolding request_irqs
request_irqs_lem x = Asked-request_tx_irq (first_of x.irqs) (record x { irqs = others x.irqs })
