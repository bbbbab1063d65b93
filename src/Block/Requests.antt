-- ===== src/Block/Requests.antt =====
-- kernel/block.c and kernel/partition.c: reads and writes, down to the driver's function.
use jcos.Prelude.{
  ℕ, zero, suc, Bool, false, not, ◌||◌, Option, none, some, ltb, leb, if◌then◌else◌, nonzero, add64,
  ◌-◌,
}
use jcos.Block.{
  BlockFunction, no_function, partition_function, driver_function, DriverData, no_data,
  driver_pointer, partition_state, BlockDevice, PartitionState, Blocks,
}

-- What reaches a driver: its function and the arguments of the call. The call's result is the driver's.
pub record Request : Type 0 where
  pub function : ℕ
  pub device : ℕ
  pub lba : ℕ
  pub count : ℕ

unfoldable pub valid_range : BlockDevice → (lba count : ℕ) → Bool
valid_range d lba count =
    if not (nonzero count)
    then false
    else if leb d.block_count lba
    then false
    else not (ltb (d.block_count - lba) count)

-- The tests that partition_read and partition_write share.
unfoldable pub outside : PartitionState → (lba count : ℕ) → Bool
outside p lba count =
    not (nonzero count)
    || leb p.block_count lba
    || ltb (p.block_count - lba) count
    || ltb (add64 p.first_lba lba) p.first_lba

-- `partition_read`, with the read of a device that it goes on with.
unfoldable pub partition_read :
    Blocks → DriverData → (lba count : ℕ) → (ℕ → ℕ → Option Request) → Option Request
unfolding outside
partition_read s (partition_state i) lba count read =
    let p = s.partitions i in
    elim p.parent [
      | none ↦ none
      | some parent ↦ if outside p lba count then none else read parent (add64 p.first_lba lba)
    ]
partition_read s no_data lba count read = none
partition_read s (driver_pointer address) lba count read = none

-- The call through the device's pointer.
abbrev pub call_read :
    Blocks → BlockFunction → (device lba count : ℕ) → (ℕ → ℕ → Option Request) → Option Request
call_read s no_function device lba count read = none
call_read s partition_function device lba count read =
    partition_read s (s.devices device).driver_data lba count read
call_read s (driver_function address) device lba count read =
    some (record { function = address; device = device; lba = lba; count = count })

-- `none` is false before a driver is called. On fuel for the devices that a read goes through.
unfoldable pub block_read : ℕ → Blocks → (device lba count : ℕ) → Option Request
unfolding valid_range
block_read zero s device lba count = none
block_read (suc fuel) s device lba count =
    let d = s.devices device in
    let called =
      call_read s d.read device lba count (λ parent at. block_read fuel s parent at count) in
    if valid_range d lba count then called else none

-- Writing also refuses a device that is read-only, at each step.
unfoldable pub partition_write :
    Blocks → DriverData → (lba count : ℕ) → (ℕ → ℕ → Option Request) → Option Request
unfolding outside
partition_write s (partition_state i) lba count write =
    let p = s.partitions i in
    elim p.parent [
      | none ↦ none
      | some parent ↦
          if (s.devices parent).read_only || outside p lba count
          then none
          else write parent (add64 p.first_lba lba)
    ]
partition_write s no_data lba count write = none
partition_write s (driver_pointer address) lba count write = none

abbrev pub call_write :
    Blocks → BlockFunction → (device lba count : ℕ) → (ℕ → ℕ → Option Request) → Option Request
call_write s no_function device lba count write = none
call_write s partition_function device lba count write =
    partition_write s (s.devices device).driver_data lba count write
call_write s (driver_function address) device lba count write =
    some (record { function = address; device = device; lba = lba; count = count })

unfoldable pub block_write : ℕ → Blocks → (device lba count : ℕ) → Option Request
unfolding valid_range
block_write zero s device lba count = none
block_write (suc fuel) s device lba count =
    let d = s.devices device in
    let called =
      call_write s d.write device lba count (λ parent at. block_write fuel s parent at count) in
    if d.read_only || not (valid_range d lba count) then none else called
