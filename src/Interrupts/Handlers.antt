-- ===== src/Interrupts/Handlers.antt =====
-- The handlers of interrupt requests and the interrupt controllers of kernel/isr.cpp.
use attos.Common.{
  ℕ, zero, suc, ◌+◌, ◌-◌, ◌*◌, ◌/◌, ◌%◌, ◌^◌, ◌==◌, ◌&&◌, Bool, true, not, leb, ltb, if◌then◌else◌,
  Option, none, some, ◌>>=◌, ◌>>◌, require, List, [], ◌∷◌, ◌++◌, is_none,
}
use attos.Interrupts.Gate.{is_irq, irq_number}

-- A byte written to a port, or a call of a handler.
pub data Event : Type 0 where
  outbyte : ℕ → ℕ → Event
  called : ℕ → Event

-- The mask is what the data ports of the two controllers read; a handler is known by a number.
pub record IsrHandler : Type 0 where
  pub pic_mask : ℕ
  pub old_pic_mask : ℕ
  pub irq_handlers : ℕ → Option ℕ

abbrev pub pic_irq_mask_all : ℕ
pic_irq_mask_all = 0xFFFF

-- `pic_irq_mask(mask)`
abbrev pub pic_irq_mask : ℕ → List Event
pic_irq_mask mask = outbyte 0x21 (mask % 2 ^ 8) ∷ outbyte 0xA1 (mask / 2 ^ 8 % 2 ^ 8) ∷ []

unfoldable pub pic_remap : ℕ → ℕ → List Event
pic_remap pic1_offset pic2_offset =
    pic_irq_mask pic_irq_mask_all
    ++ outbyte 0x20 0x11
      ∷ outbyte 0xA0 0x11
      ∷ outbyte 0x21 pic1_offset
      ∷ outbyte 0xA1 pic2_offset
      ∷ outbyte 0x21 4
      ∷ outbyte 0xA1 2
      ∷ outbyte 0x21 1
      ∷ outbyte 0xA1 1
      ∷ pic_irq_mask pic_irq_mask_all

-- The test of `mask & (1 << irq)`, `mask | (1 << irq)` and `mask & ~(1 << irq)`.
abbrev pub bit_of : ℕ → ℕ → Bool
bit_of mask zero = mask % 2 == 1
bit_of mask (suc irq) = bit_of (mask / 2) irq

abbrev pub set_bit : ℕ → ℕ → ℕ
set_bit mask zero = mask / 2 * 2 + 1
set_bit mask (suc irq) = set_bit (mask / 2) irq * 2 + mask % 2

abbrev pub clear_bit : ℕ → ℕ → ℕ
clear_bit mask zero = mask / 2 * 2
clear_bit mask (suc irq) = clear_bit (mask / 2) irq * 2 + mask % 2

-- `pic_mask_irq`
unfoldable pub pic_mask_irq : IsrHandler → ℕ → Option IsrHandler
pic_mask_irq h irq =
    require (ltb irq 16 && not (irq == 2))
    >> (require (not (bit_of h.pic_mask irq))
        >> some (record h { pic_mask = set_bit h.pic_mask irq }))

-- `pic_unmask_irq`
unfoldable pub pic_unmask_irq : IsrHandler → ℕ → Option IsrHandler
pic_unmask_irq h irq =
    require (ltb irq 16 && not (irq == 2))
    >> (require (bit_of h.pic_mask irq) >> some (record h { pic_mask = clear_bit h.pic_mask irq }))

unfoldable pub pic_send_eoi : ℕ → List Event
pic_send_eoi irq =
    if leb 8 irq then outbyte 0xA0 0x20 ∷ outbyte 0x20 0x20 ∷ [] else outbyte 0x20 0x20 ∷ []

-- The constructors of `pic_state` and `isr_handler_impl`: the handler, and what is written.
unfoldable pub isr_init : ℕ → IsrHandler × List Event
isr_init pic_mask_before = (
  record {
    pic_mask = pic_irq_mask_all - 2 ^ 2;
    old_pic_mask = pic_mask_before;
    irq_handlers = λ irq. none;
  },
  pic_remap 0x30 0x38 ++ pic_irq_mask (pic_irq_mask_all - 2 ^ 2),
)

abbrev pub no_handlers : ℕ → (ℕ → Option ℕ) → Bool
no_handlers zero handlers = true
no_handlers (suc n) handlers = is_none (handlers n) && no_handlers n handlers

-- The destructors: the controllers go back to the state of the BIOS.
unfoldable pub shut_down : IsrHandler → Option (List Event)
shut_down h =
    require (no_handlers 16 h.irq_handlers)
    >> some (pic_remap 0x08 0x70 ++ pic_irq_mask h.old_pic_mask)

abbrev pub set_handler : IsrHandler → ℕ → Option ℕ → IsrHandler
set_handler h irq handler = record h {
  irq_handlers = λ k. if k == irq then handler else h.irq_handlers k;
}

unfoldable pub register_irq_handler : IsrHandler → ℕ → ℕ → Option IsrHandler
register_irq_handler h irq handler =
    require (is_none (h.irq_handlers irq)) >> pic_unmask_irq (set_handler h irq (some handler)) irq

-- The destructor of `isr_registration_impl`.
unfoldable pub unregister : IsrHandler → ℕ → Option IsrHandler
unregister h irq = do
  masked ← pic_mask_irq h irq
  require (not (is_none (masked.irq_handlers irq)))
  some (set_handler masked irq none)

unfoldable pub on_irq : IsrHandler → ℕ → Option (List Event)
on_irq h irq = h.irq_handlers irq >>= λ handler. some (called handler ∷ pic_send_eoi irq)

-- `interrupt_service_routine`: without a result the kernel reports the interrupt and halts.
unfoldable pub interrupt_service_routine : IsrHandler → ℕ → Option (List Event)
interrupt_service_routine h n = require (is_irq n) >> on_irq h (irq_number n)
