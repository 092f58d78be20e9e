-- ===== src/Interrupts/Tests.antt =====
-- The interrupts of kernel/isr.cpp on concrete gates, code and handlers.
use attos.Common.{
  ℕ, zero, suc, ◌+◌, ◌*◌, ◌/◌, ◌%◌, ◌^◌, ◌<◌, ◌≡◌, refl, ◌==◌, Bool, true, false, if◌then◌else◌,
  leb, Option, none, some, List, [], ◌∷◌, ◌++◌, arith,
}
use attos.Interrupts.Gate.{set_idt_entry, CodeBuilder}
use attos.Interrupts.Stub.{base_of, set_idt_entry_lem}
use attos.Interrupts.Handlers.{
  outbyte, called, IsrHandler, isr_init, register_irq_handler, pic_unmask_irq,
  interrupt_service_routine,
}
use attos.Interrupts.Dispatch.{
  Reached, initial, registered, IsConsistent, Reached-IsConsistent,
  interrupt_service_routine-Reached,
}

set_idt_entry_example :
    (base_of (set_idt_entry 8 0xFFFFFFFFFF012345 3) ≡ 0xFFFFFFFFFF012345)
    × ((set_idt_entry 8 0xFFFFFFFFFF012345 3).type % 2 ^ 4 ≡ 0xE)
    × ((set_idt_entry 8 0xFFFFFFFFFF012345 3).type / 2 ^ 5 % 4 ≡ 3)
    × ((set_idt_entry 8 0xFFFFFFFFFF012345 3).type / 2 ^ 7 ≡ 1)
set_idt_entry_example = set_idt_entry_lem 8 0xFFFFFFFFFF012345 3 (omega arith) (omega arith)

-- The code of a page fault, below the common code.
abbrev page_fault : CodeBuilder
page_fault = record { code = 0x1000; bytes = 0x6A ∷ 0x0E ∷ 0xE9 ∷ 0xF9 ∷ 0x0F ∷ 0 ∷ 0 ∷ [] }

abbrev first_state : IsrHandler
first_state = record { pic_mask = 0xFFFB; old_pic_mask = 0xB8; irq_handlers = λ irq. none }

abbrev with_nine : IsrHandler
with_nine = record {
  pic_mask = 0xFDFB;
  old_pic_mask = 0xB8;
  irq_handlers = λ k. if k == 9 then some 7 else none;
}

first-Reached : Reached first_state
unfolding isr_init
first-Reached = initial 0xB8

nine_registered : register_irq_handler first_state 9 7 ≡ some with_nine
unfolding register_irq_handler pic_unmask_irq attos.Common.Tests.is_none
nine_registered = refl

Reached-IsConsistent_example : IsConsistent with_nine
Reached-IsConsistent_example =
    Reached-IsConsistent with_nine
      (registered first_state with_nine 9 7 first-Reached nine_registered)

interrupt_service_routine-Reached_example :
    (handler : ℕ) × (with_nine.irq_handlers 9 ≡ some handler)
    × (interrupt_service_routine with_nine (0x30 + 9)
        ≡ some (
            called handler ∷ (if leb 8 9 then outbyte 0xA0 0x20 ∷ [] else [])
            ++ outbyte 0x20 0x20 ∷ []))
interrupt_service_routine-Reached_example =
    interrupt_service_routine-Reached with_nine 9
      (registered first_state with_nine 9 7 first-Reached nine_registered) (omega arith)
      (λ e. omega (arith, e)) refl
