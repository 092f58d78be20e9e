-- ===== src/Interrupts/Gate.antt =====
-- `set_idt_entry` and `code_builder` of kernel/isr.cpp, and the code that is built for each interrupt.
use attos.Common.{
  ℕ, ◌+◌, ◌-◌, ◌*◌, ◌/◌, ◌%◌, ◌^◌, ◌==◌, ◌&&◌, ◌||◌, Bool, leb, ltb, if◌then◌else◌, Option, some,
  ◌>>◌, require, List, [], ◌∷◌, ◌++◌, length, u8, u64,
}

-- `has_error_code`: DF, TS, NP, SS, GP, PF and AC.
abbrev pub has_error_code : ℕ → Bool
has_error_code n =
    n == 0x08 || n == 0x0A || n == 0x0B || n == 0x0C || n == 0x0D || n == 0x0E || n == 0x11

abbrev pub is_irq : ℕ → Bool
is_irq n = leb 0x30 n && leb n 0x3F

abbrev pub irq_number : ℕ → ℕ
irq_number n = n - 0x30

-- `interrupt_gate`
pub record InterruptGate : Type 0 where
  pub offset_low : ℕ
  pub selector : ℕ
  pub ist : ℕ
  pub type : ℕ
  pub offset_mid : ℕ
  pub offset_high : ℕ
  pub reserved : ℕ

-- `code` and `dpl << 5` share no bits with the type.
unfoldable pub set_idt_entry : ℕ → ℕ → ℕ → InterruptGate
set_idt_entry kernel_cs code dpl = record {
  offset_low = code % 2 ^ 16;
  selector = kernel_cs;
  ist = 0;
  type = u8 (0x8E + dpl * 2 ^ 5);
  offset_mid = code / 2 ^ 16 % 2 ^ 16;
  offset_high = code / 2 ^ 32 % 2 ^ 32;
  reserved = 0;
}

-- `code_builder`: where the code lies, and the bytes so far.
pub record CodeBuilder : Type 0 where
  pub code : ℕ
  pub bytes : List ℕ

unfoldable pub push_imm8 : CodeBuilder → ℕ → CodeBuilder
push_imm8 c imm = record c { bytes = c.bytes ++ 0x6A ∷ u8 imm ∷ [] }

-- The difference of two addresses, as a 64-bit word.
abbrev pub offset_to : CodeBuilder → ℕ → ℕ
offset_to c target = u64 (target + (2 ^ 64 - u64 (c.code + length c.bytes + 5)))

-- The four bytes of `int32_t`.
abbrev pub le32 : ℕ → List ℕ
le32 n = n % 2 ^ 8 ∷ n / 2 ^ 8 % 2 ^ 8 ∷ n / 2 ^ 16 % 2 ^ 8 ∷ n / 2 ^ 24 % 2 ^ 8 ∷ []

unfoldable pub jmp_rel32 : CodeBuilder → ℕ → Option CodeBuilder
jmp_rel32 c target =
    require (ltb (offset_to c target) (2 ^ 31) || leb (2 ^ 64 - 2 ^ 31) (offset_to c target))
    >> some (record c { bytes = c.bytes ++ 0xE9 ∷ le32 (offset_to c target) })

-- The loop's body in the constructor of `isr_handler_impl`: the code of interrupt `i`.
unfoldable pub isr_code : ℕ → ℕ → ℕ → Option CodeBuilder
isr_code code isr_common i =
    let start : CodeBuilder = record { code = code; bytes = [] } in
    let with_error = if has_error_code i then start else push_imm8 start 0 in
    jmp_rel32 (push_imm8 with_error i) isr_common
