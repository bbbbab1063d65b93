-- ===== src/Capability/Handles.antt =====
-- The handles of kernel/capability.c: packing a generation with a slot index.
use jcos.Prelude.{ℕ, ◌+◌, ◌*◌, ◌/◌, ◌^◌, ◌<◌, ◌≡◌, some, arith, u32, bit_or_shifted}
use jcos.Capability.{make_handle, take_generation}

pub make_handle_lem : (g i : ℕ) → i < 2 ^ 32 → make_handle g i ≡ g * 2 ^ 32 + i
unfolding make_handle
make_handle_lem g i h = bit_or_shifted 32 g i h

-- What the resolver reads back.
pub make_handle_fields :
    (g i : ℕ)
    → g < 2 ^ 32
    → i < 2 ^ 32
    → (u32 (make_handle g i) ≡ i) × (u32 (make_handle g i / 2 ^ 32) ≡ g)
make_handle_fields g i hg hi = omega (arith, make_handle_lem g i hi)

-- A granted generation is the issuer's value, fits 32 bits, is not zero, and is never granted again.
pub take_generation_lem :
    (next : ℕ) {next' g : ℕ}
    → take_generation next ≡ some (next', g)
    → (g ≡ next) × (next' ≡ next + 1) × (0 < g) × (g < 2 ^ 32)
unfolding take_generation
take_generation_lem next e = ground arith

pub issued_form :
    (next : ℕ) (r : ℕ × ℕ)
    → take_generation next ≡ some r
    → take_generation next ≡ some (next + 1, next)
unfolding take_generation
issued_form next r e = ground arith
