-- ===== src/Block/Tests.antt =====
-- A disk of 100 blocks for kernel/block.c, and partitions on it.
use jcos.Prelude.{◌≡◌, refl, true, false, none, some, [], ◌∷◌, arith}
use jcos.Block.{
  driver_function, no_data, no_function, block_ahci, Blocks, zero_device, block_register,
  partition_register,
}
use jcos.Block.Requests.{partition_read, block_read}
use jcos.Block.Windows.{IsBlocks, Serves, block_read-Serves}
use jcos.Block.Register.{block_register-IsBlocks, partition_register-IsBlocks}

abbrev no_blocks : Blocks
no_blocks = record {
  devices = λ _. zero_device;
  device_count = 0;
  partitions =
      λ _. record { used = false; parent = none; first_lba = 0; block_count = 0; device = none };
  partition_count = 0;
}

no_blocks-IsBlocks : IsBlocks no_blocks
no_blocks-IsBlocks = record {
  counted = λ d h. absurd (omega arith);
  served = λ d h. absurd (omega arith);
}

-- "sd" at the driver's function 0x4000, then its blocks 10 to 39 as "p1", and blocks 5 to 9 of that.
abbrev disk : Blocks
disk =
    (block_register no_blocks (115 ∷ 100 ∷ []) block_ahci 512 100 true (driver_function 0x4000)
      no_function no_data).0

abbrev one : Blocks
one = (partition_register disk 0 (112 ∷ 49 ∷ []) 10 30).0

abbrev two : Blocks
two = (partition_register one 1 (112 ∷ 50 ∷ []) 5 5).0

disk-IsBlocks : IsBlocks disk
disk-IsBlocks =
    block_register-IsBlocks no_blocks (115 ∷ 100 ∷ []) block_ahci 512 100 true 0x4000 no_function
      no_data (omega arith) no_blocks-IsBlocks

has_disk : disk.device_count ≡ 1
unfolding block_register
has_disk = refl

partition_register_example : IsBlocks one
partition_register_example =
    partition_register-IsBlocks disk 0 (112 ∷ 49 ∷ []) 10 30 (rw has_disk (omega arith))
      disk-IsBlocks

has_one : one.device_count ≡ 2
unfolding partition_register block_register
has_one = refl

one-IsBlocks : IsBlocks one
one-IsBlocks =
    partition_register-IsBlocks disk 0 (112 ∷ 49 ∷ []) 10 30 (rw has_disk (omega arith))
      disk-IsBlocks

two-IsBlocks : IsBlocks two
two-IsBlocks =
    partition_register-IsBlocks one 1 (112 ∷ 50 ∷ []) 5 5 (rw has_one (omega arith)) one-IsBlocks

has_two : two.device_count ≡ 3
unfolding partition_register block_register
has_two = refl

block_read-Serves_example : Serves two 3 2
block_read-Serves_example =
    block_read-Serves 3 two 2 two-IsBlocks (rw has_two (omega arith)) (omega arith)

-- Two windows deep, block 2 is block 17 of the disk.
reads_disk :
    block_read 3 two 2 2 1 ≡ some (record { function = 0x4000; device = 0; lba = 17; count = 1 })
unfolding block_read partition_register block_register partition_read
reads_disk = refl

-- One block further is not in the partition.
reads_no_further : block_read 3 two 2 5 1 ≡ none
unfolding block_read partition_register block_register partition_read
reads_no_further = refl
