-- ===== src/Physmap/Tests.antt =====
-- The direct map of kernel/physmap.c at concrete addresses.
use jcos.Prelude.{ℕ, ◌≡◌, ◌≢◌, ◌↔◌, some}
use jcos.Physmap.{phys_to_virt, virt_to_phys, virt_to_phys-phys_to_virt_iff}

abbrev address : ℕ
address = 0xffff_8000_0010_0000

virt_to_phys-phys_to_virt_example :
    ((address ≢ 0) × (phys_to_virt 0x10_0000 ≡ address)) ↔ (virt_to_phys address ≡ some 0x10_0000)
virt_to_phys-phys_to_virt_example = virt_to_phys-phys_to_virt_iff 0x10_0000 address
