-- ===== src/Physmap.antt =====
-- kernel/physmap.c: the high-half direct map of physical memory.
mod Tests
use jcos.Prelude.{
  ℕ, ◌+◌, ◌-◌, ◌*◌, ◌^◌, ◌≤◌, ◌<◌, ◌≡◌, Option, none, some, arith, ltb, leb, ◌==◌, if◌then◌else◌,
  ◌↔◌, ◌≢◌,
}

abbrev pub phys_map_base : ℕ
phys_map_base = 0xffff_8000_0000_0000

abbrev pub phys_map_size : ℕ
phys_map_size = 0x0000_8000_0000_0000

-- `none` is the return value false.
unfoldable pub physmap_virtual_address : ℕ → Option ℕ
physmap_virtual_address physical =
    if leb phys_map_size physical then none else some (phys_map_base + physical)

-- Zero is the null pointer.
unfoldable pub phys_to_virt : ℕ → ℕ
unfolding physmap_virtual_address
phys_to_virt physical = elim (physmap_virtual_address physical) [ none ↦ 0 | some a ↦ a ]

unfoldable pub virt_to_phys : ℕ → Option ℕ
virt_to_phys address =
    if address == 0
    then none
    else if ltb address phys_map_base
    then none
    else if leb phys_map_size (address - phys_map_base)
    then none
    else some (address - phys_map_base)

-- The two translations are inverse: a nonnull address is the image of a physical address exactly
-- when it translates back to that address.
pub virt_to_phys-phys_to_virt_iff :
    (physical address : ℕ)
    → ((address ≢ 0) × (phys_to_virt physical ≡ address)) ↔ (virt_to_phys address ≡ some physical)
unfolding phys_to_virt virt_to_phys
virt_to_phys-phys_to_virt_iff physical address = ground arith
