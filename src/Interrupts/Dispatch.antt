-- ===== src/Interrupts/Dispatch.antt =====
-- Handlers and masks of kernel/isr.cpp agree, so that each request that gets through has its handler.
use attos.Common.{
  ℕ, zero, suc, ◌+◌, ◌-◌, ◌*◌, ◌/◌, ◌%◌, ◌^◌, ◌≤◌, ◌<◌, ◌≡◌, ◌≢◌, refl, sym, ap, ◌∙◌, subst, ◌==◌,
  ◌&&◌, ◌||◌, Bool, true, false, not, leb, ltb, if◌then◌else◌, Option, none, some, ◌>>=◌, ◌>>◌,
  require, List, [], ◌∷◌, ◌++◌, is_none, is_none-none, is_none-some, arith, Bool-cases, inl, inr,
  require-some, bind-some,
}
use attos.Interrupts.Gate.{is_irq, irq_number}
use attos.Interrupts.Handlers.{
  outbyte, called, IsrHandler, bit_of, set_bit, clear_bit, pic_mask_irq, pic_unmask_irq,
  pic_send_eoi, isr_init, set_handler, register_irq_handler, unregister, on_irq,
  interrupt_service_routine,
}

-- Setting or clearing a bit leaves the others.
pub bit_of-set_bit :
    (mask irq k : ℕ) → bit_of (set_bit mask irq) k ≡ (if k == irq then true else bit_of mask k)
bit_of-set_bit mask zero zero = ground arith
bit_of-set_bit mask zero (suc k) =
    let half : set_bit mask zero / 2 ≡ mask / 2 = omega arith in
    ap (λ m. bit_of m k) half ∙ ground arith
bit_of-set_bit mask (suc irq) zero = ground arith
bit_of-set_bit mask (suc irq) (suc k) =
    ap (λ m. bit_of m k) (omega arith) ∙ bit_of-set_bit (mask / 2) irq k ∙ ground arith

pub bit_of-clear_bit :
    (mask irq k : ℕ) → bit_of (clear_bit mask irq) k ≡ (if k == irq then false else bit_of mask k)
bit_of-clear_bit mask zero zero = ground arith
bit_of-clear_bit mask zero (suc k) =
    let half : clear_bit mask zero / 2 ≡ mask / 2 = omega arith in
    ap (λ m. bit_of m k) half ∙ ground arith
bit_of-clear_bit mask (suc irq) zero = ground arith
bit_of-clear_bit mask (suc irq) (suc k) =
    ap (λ m. bit_of m k) (omega arith) ∙ bit_of-clear_bit (mask / 2) irq k ∙ ground arith

-- A request has a handler if and only if its bit in the mask is clear; the second controller is behind request 2.
pub record IsConsistent (h : IsrHandler) : Type 0 where
  pub cascade : bit_of h.pic_mask 2 ≡ false
  pub masked : (irq : ℕ) → irq < 16 → irq ≢ 2 → is_none (h.irq_handlers irq) ≡ bit_of h.pic_mask irq

-- The states of the kernel's handlers from start on.
pub data Reached : IsrHandler → Type 0 where
  initial : (pic_mask_before : ℕ) → Reached (isr_init pic_mask_before).0
  registered :
      (h h' : IsrHandler) (irq handler : ℕ)
      → Reached h
      → register_irq_handler h irq handler ≡ some h'
      → Reached h'
  unregistered : (h h' : IsrHandler) (irq : ℕ) → Reached h → unregister h irq ≡ some h' → Reached h'

abbrev ones : ℕ → ℕ
ones zero = 0
ones (suc n) = ones n * 2 + 1

bit_of-ones : (n k : ℕ) → k < n → bit_of (ones n) k ≡ true
bit_of-ones zero k lt = absurd (omega (arith, lt))
bit_of-ones (suc n) zero lt = ground arith
bit_of-ones (suc n) (suc k) lt =
    let half : ones (suc n) / 2 ≡ ones n = omega arith in
    ap (λ m. bit_of m k) half ∙ bit_of-ones n k (omega (arith, lt))

all_masked : (irq : ℕ) → irq < 16 → irq ≢ 2 → bit_of (0xFFFF - 2 ^ 2) irq ≡ true
all_masked irq small other =
    let differ : (irq == 2) ≡ false = ground (arith, other) in
    bit_of-clear_bit 0xFFFF 2 irq
    ∙ ap (λ b. if b then false else bit_of 0xFFFF irq) differ
    ∙ bit_of-ones 16 irq small

-- One handler and its bit change together.
changed-IsConsistent :
    (h : IsrHandler) (irq mask : ℕ) (handler : Option ℕ) (b : Bool)
    → IsConsistent h
    → irq ≢ 2
    → is_none handler ≡ b
    → ((k : ℕ) → bit_of mask k ≡ (if k == irq then b else bit_of h.pic_mask k))
    → IsConsistent (record (set_handler h irq handler) { pic_mask = mask })
changed-IsConsistent h irq mask handler b v apart same bits = record {
  cascade = bits 2 ∙ ground (arith, apart, v.cascade);
  masked = λ k small other. elim (Bool-cases (k == irq)) [
    | inl e ↦
        ap (λ c. is_none (if c then handler else h.irq_handlers k)) e
        ∙ same
        ∙ sym (bits k ∙ ap (λ c. if c then b else bit_of h.pic_mask k) e)
    | inr e ↦
        ap (λ c. is_none (if c then handler else h.irq_handlers k)) e
        ∙ v.masked k small other
        ∙ sym (bits k ∙ ap (λ c. if c then b else bit_of h.pic_mask k) e)
  ];
}

register_irq_handler-IsConsistent :
    (h h' : IsrHandler) (irq handler : ℕ)
    → IsConsistent h
    → register_irq_handler h irq handler ≡ some h'
    → IsConsistent h'
unfolding register_irq_handler pic_unmask_irq attos.Common.Tests.is_none
register_irq_handler-IsConsistent h h' irq handler v e =
    let c = require-some (is_none (h.irq_handlers irq)) _ _ e in
    let d = require-some (ltb irq 16 && not (irq == 2)) _ _ c.1 in
    let f = require-some (bit_of h.pic_mask irq) _ _ d.1 in
    let same : record (set_handler h irq (some handler)) { pic_mask = clear_bit h.pic_mask irq }
        ≡ h' =
      ground (arith, f.1) in
    subst IsConsistent same (
      changed-IsConsistent h irq (clear_bit h.pic_mask irq) (some handler) false v
        (ground (arith, d.0)) refl (bit_of-clear_bit h.pic_mask irq))

unregister-IsConsistent :
    (h h' : IsrHandler) (irq : ℕ) → IsConsistent h → unregister h irq ≡ some h' → IsConsistent h'
unfolding unregister pic_mask_irq attos.Common.Tests.is_none
unregister-IsConsistent h h' irq v e =
    let b = bind-some (pic_mask_irq h irq) _ _ e in
    let d = require-some (ltb irq 16 && not (irq == 2)) _ _ b.1 in
    let f = require-some (not (bit_of h.pic_mask irq)) _ _ d.1 in
    let g = require-some (not (is_none (b.0.irq_handlers irq))) _ _ b.2 in
    let same_b : record h { pic_mask = set_bit h.pic_mask irq } ≡ b.0 = ground (arith, f.1) in
    let same : record (set_handler h irq none) { pic_mask = set_bit h.pic_mask irq } ≡ h' =
      ap (λ x. set_handler x irq none) same_b ∙ ground (arith, g.1) in
    subst IsConsistent same (
      changed-IsConsistent h irq (set_bit h.pic_mask irq) none true v (ground (arith, d.0)) refl
        (bit_of-set_bit h.pic_mask irq))

isr_init-IsConsistent : (pic_mask_before : ℕ) → IsConsistent (isr_init pic_mask_before).0
unfolding isr_init attos.Common.Tests.is_none
isr_init-IsConsistent pic_mask_before = record {
  cascade = refl;
  masked = λ irq small other. sym (all_masked irq small other);
}

-- In every state that registering and unregistering handlers leads to, request 2, through which the second
-- controller comes, is not masked, and any other of the 16 requests has a handler if and only if it is not masked.
pub Reached-IsConsistent : (h : IsrHandler) → Reached h → IsConsistent h
Reached-IsConsistent h (initial before) = isr_init-IsConsistent before
Reached-IsConsistent h (registered g h' irq handler r e) =
    register_irq_handler-IsConsistent g h irq handler (Reached-IsConsistent g r) e
Reached-IsConsistent h (unregistered g h' irq r e) =
    unregister-IsConsistent g h irq (Reached-IsConsistent g r) e

-- No request that gets through goes unhandled: in every reached state, when one of the 16 requests but request 2,
-- which has no device of its own, is not masked, the
-- interrupt service routine calls a handler that is registered for it, and then ends the interrupt at the first
-- controller, and before that at the second if the request came from there.
pub interrupt_service_routine-Reached :
    (h : IsrHandler) (irq : ℕ)
    → Reached h
    → irq < 16
    → irq ≢ 2
    → bit_of h.pic_mask irq ≡ false
    → (handler : ℕ) × (h.irq_handlers irq ≡ some handler)
      × (interrupt_service_routine h (0x30 + irq)
          ≡ some (
              called handler ∷ (if leb 8 irq then outbyte 0xA0 0x20 ∷ [] else [])
              ++ outbyte 0x20 0x20 ∷ []))
unfolding interrupt_service_routine on_irq pic_send_eoi
interrupt_service_routine-Reached h irq reached small other clear =
    let there : is_none (h.irq_handlers irq) ≡ false =
      (Reached-IsConsistent h reached).masked irq small other ∙ clear in
    let (handler, e) = is_none-some (h.irq_handlers irq) there in
    let number : irq_number (0x30 + irq) ≡ irq = omega arith in
    let known : is_irq (0x30 + irq) ≡ true = ground (arith, small) in
    (handler, e, ground (arith, e, small))
