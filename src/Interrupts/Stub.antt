-- ===== src/Interrupts/Stub.antt =====
-- The code of each interrupt of kernel/isr.cpp as the processor runs it.
use attos.Common.{
  ℕ, zero, suc, ◌+◌, ◌-◌, ◌*◌, ◌/◌, ◌%◌, ◌^◌, ◌<◌, ◌≡◌, ◌==◌, ltb, if◌then◌else◌, Option, none,
  some, List, [], ◌∷◌, get_or, drop, u64, arith,
}
use attos.Interrupts.Gate.{has_error_code, InterruptGate, set_idt_entry}

abbrev pub sign_extend_8 : ℕ → ℕ
sign_extend_8 b = if ltb b (2 ^ 7) then b else b + (2 ^ 64 - 2 ^ 8)

abbrev pub sign_extend_32 : ℕ → ℕ
sign_extend_32 n = if ltb n (2 ^ 31) then n else n + (2 ^ 64 - 2 ^ 32)

abbrev pub read_le32 : ℕ → ℕ → ℕ → ℕ → ℕ
read_le32 a b c d = a + b * 2 ^ 8 + c * 2 ^ 16 + d * 2 ^ 24

-- `push imm8` and `jmp rel32` of the processor: up to the first jump, its target and the stack.
abbrev pub execute : ℕ → ℕ → List ℕ → List ℕ → Option (ℕ × List ℕ)
execute zero ip stack bytes = none
execute (suc n) ip stack bytes =
    let byte : ℕ → ℕ = λ i. get_or bytes i 0 in
    let pushed = execute n (ip + 2) (sign_extend_8 (byte 1) ∷ stack) (drop 2 bytes) in
    if byte 0 == 0x6A
    then pushed
    else if byte 0 == 0xE9
    then some (u64 (ip + 5 + sign_extend_32 (read_le32 (byte 1) (byte 2) (byte 3) (byte 4))), stack)
    else none

-- The address that the processor takes from a gate.
abbrev pub base_of : InterruptGate → ℕ
base_of g = g.offset_low + g.offset_mid * 2 ^ 16 + g.offset_high * 2 ^ 32

-- For every 64-bit address and privilege level, set_idt_entry writes a gate from which the processor reads that
-- address back, of the type of a 64-bit interrupt gate, with that level, and marked present.
pub set_idt_entry_lem :
    (kernel_cs code dpl : ℕ)
    → code < 2 ^ 64
    → dpl < 4
    → (base_of (set_idt_entry kernel_cs code dpl) ≡ code)
      × ((set_idt_entry kernel_cs code dpl).type % 2 ^ 4 ≡ 0xE)
      × ((set_idt_entry kernel_cs code dpl).type / 2 ^ 5 % 4 ≡ dpl)
      × ((set_idt_entry kernel_cs code dpl).type / 2 ^ 7 ≡ 1)
unfolding set_idt_entry
set_idt_entry_lem kernel_cs code dpl lt small = (omega arith, omega arith, omega arith, omega arith)

-- What the processor has pushed after the return frame, when it enters the code of an interrupt.
abbrev pub pushed_by_cpu : ℕ → ℕ → List ℕ
pushed_by_cpu i error = if has_error_code i then error ∷ [] else []

abbrev pub error_of : ℕ → ℕ → ℕ
error_of i error = if has_error_code i then error else 0
