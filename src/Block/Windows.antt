-- ===== src/Block/Windows.antt =====
-- What a read of a device asks of the disk, however many partitions lie between (kernel/block.c,
-- kernel/partition.c).
use jcos.Prelude.{
  ℕ, zero, suc, ◌+◌, ◌^◌, ◌<◌, ◌≤◌, ◌≡◌, refl, ◌∙◌, ap, inl, inr, Bool, true, false, not, ◌&&◌,
  Option, none, some, arith, add64, leb, nonzero, if◌then◌else◌, Bool-cases,
}
use jcos.Block.{
  BlockFunction, no_function, partition_function, driver_function, DriverData, no_data,
  driver_pointer, partition_state, BlockDevice, Blocks,
}
use jcos.Block.Requests.{Request, valid_range, outside, partition_read, call_read, block_read}

-- The window of a partition: an earlier device that holds all of its blocks.
pub record IsWindow (s : Blocks) (d i : ℕ) : Type 0 where
  pub parent : ℕ
  pub names : (s.partitions i).parent ≡ some parent
  pub earlier : parent < d
  pub inside :
      (s.partitions i).first_lba + (s.partitions i).block_count ≤ (s.devices parent).block_count
  pub same : (s.partitions i).block_count ≡ (s.devices d).block_count
  pub guarded : (s.devices d).read_only ≡ (s.devices parent).read_only

-- What a device's pointers are.
unfoldable pub IsServed : Blocks → ℕ → BlockFunction → DriverData → Type 0
IsServed s d partition_function (partition_state i) = (i < s.partition_count) × IsWindow s d i
IsServed s d partition_function given = false ≡ true
IsServed s d no_function given = false ≡ true
IsServed s d (driver_function a) given = true ≡ true

pub record IsBlocks (s : Blocks) : Type 0 where
  pub counted : (d : ℕ) → d < s.device_count → (s.devices d).block_count < 2 ^ 64
  pub served :
      (d : ℕ) → d < s.device_count → IsServed s d (s.devices d).read (s.devices d).driver_data

-- Where a device lies on a disk: block 0 of the first device is block `at` of the second, which has a
-- driver.
pub data Lies (s : Blocks) : (device disk at : ℕ) → Type 0 where
  whole : (d a : ℕ) → (s.devices d).read ≡ driver_function a → Lies s d d 0
  part :
      {disk at : ℕ} (d i parent : ℕ)
      → (s.devices d).read ≡ partition_function
      → (s.devices d).driver_data ≡ partition_state i
      → (s.partitions i).parent ≡ some parent
      → Lies s parent disk at
      → Lies s d disk (at + (s.partitions i).first_lba)

-- The blocks are some, and the device has them.
abbrev pub in_range : BlockDevice → (lba count : ℕ) → Bool
in_range d lba count = nonzero count && leb (lba + count) d.block_count

abbrev pub asks : (function disk at count : ℕ) → Option Request
asks function disk at count =
    some (record { function = function; device = disk; lba = at; count = count })

-- A device whose reads are the disk's, at the device's place on it, where the device has the blocks, and
-- refused where it does not.
pub record Serves (s : Blocks) (fuel d : ℕ) : Type 0 where
  pub disk : ℕ
  pub at : ℕ
  pub function : ℕ
  pub lies : Lies s d disk at
  pub driver : (s.devices disk).read ≡ driver_function function
  pub holds : at + (s.devices d).block_count ≤ (s.devices disk).block_count
  pub reads :
      (lba count : ℕ)
      → block_read fuel s d lba count
        ≡ (if in_range (s.devices d) lba count then asks function disk (at + lba) count else none)

valid_range_lem : (d : BlockDevice) (lba count : ℕ) → valid_range d lba count ≡ in_range d lba count
unfolding valid_range
valid_range_lem d lba count = ground arith

outside_lem :
    (s : Blocks) (d i lba count : ℕ) (w : IsWindow s d i)
    → (s.devices w.parent).block_count < 2 ^ 64
    → outside (s.partitions i) lba count ≡ not (in_range (s.devices d) lba count)
unfolding outside
outside_lem s d i lba count w small = let same = w.same in let inside = w.inside in ground arith

window_address :
    (s : Blocks) (d i lba count : ℕ) (w : IsWindow s d i)
    → (s.devices w.parent).block_count < 2 ^ 64
    → in_range (s.devices d) lba count ≡ true
    → (add64 (s.partitions i).first_lba lba ≡ (s.partitions i).first_lba + lba)
      × (in_range (s.devices w.parent) ((s.partitions i).first_lba + lba) count ≡ true)
window_address s d i lba count w small h =
    let same = w.same in let inside = w.inside in (ground arith, ground arith)

-- A partition's own tests, on a device of its size: it passes on what is in range, at its first block.
pub partition_read_lem :
    (s : Blocks) (d i lba count : ℕ) (read : ℕ → ℕ → Option Request) (w : IsWindow s d i)
    → (s.devices w.parent).block_count < 2 ^ 64
    → partition_read s (partition_state i) lba count read ≡ (
        if in_range (s.devices d) lba count
        then read w.parent ((s.partitions i).first_lba + lba)
        else none)
unfolding partition_read
partition_read_lem s d i lba count read w small =
    elim (Bool-cases (in_range (s.devices d) lba count)) [
      | inl y ↦
          let (address, _) = window_address s d i lba count w small y in
          rw (w.names, partition_read) (rw (outside_lem s d i lba count w small, y, address) refl)
      | inr n ↦ rw (w.names, partition_read) (rw (outside_lem s d i lba count w small, n) refl)
    ]

-- A read with its tests, where the call that follows them has tests of its own.
block_read_tests :
    (fuel : ℕ) (s : Blocks) (d lba count : ℕ) (o : Option Request)
    → (in_range (s.devices d) lba count ≡ true
        → call_read s (s.devices d).read d lba count (λ e to. block_read fuel s e to count) ≡ o)
    → block_read (suc fuel) s d lba count ≡ (if in_range (s.devices d) lba count then o else none)
unfolding block_read
block_read_tests fuel s d lba count o called =
    rw (valid_range_lem (s.devices d) lba count)
      (elim (Bool-cases (in_range (s.devices d) lba count)) [
        | inl y ↦ rw y (called y)
        | inr n ↦ rw n refl
      ])

-- A device of a driver.
driver-Serves :
    (fuel : ℕ) (s : Blocks) (d a : ℕ)
    → (s.devices d).read ≡ driver_function a
    → Serves s (suc fuel) d
driver-Serves fuel s d a f = record {
  disk = d;
  at = 0;
  function = a;
  lies = whole d a f;
  driver = f;
  holds = omega arith;
  reads = λ lba count.
      block_read_tests fuel s d lba count (asks a d (0 + lba) count)
        (λ _. rw f (ap (λ x. asks a d x count) (let e : lba ≡ 0 + lba = omega arith in e)));
}

-- A partition, whose parent is served.
partition-Serves :
    (fuel : ℕ) (s : Blocks) (d i : ℕ) (w : IsWindow s d i)
    → (s.devices d).read ≡ partition_function
    → (s.devices d).driver_data ≡ partition_state i
    → (s.devices w.parent).block_count < 2 ^ 64
    → Serves s fuel w.parent
    → Serves s (suc fuel) d
partition-Serves fuel s d i w f given small r = record {
  disk = r.disk;
  at = r.at + (s.partitions i).first_lba;
  function = r.function;
  lies = part d i w.parent f given w.names r.lies;
  driver = r.driver;
  holds = let same = w.same in let inside = w.inside in let holds = r.holds in omega arith;
  reads = λ lba count.
      block_read_tests fuel s d lba count
        (asks r.function r.disk (r.at + (s.partitions i).first_lba + lba) count)
        λ y.
          let read : ℕ → ℕ → Option Request = λ e to. block_read fuel s e to count in
          let (_, on_parent) = window_address s d i lba count w small y in
          let moved : r.at + ((s.partitions i).first_lba + lba)
              ≡ r.at + (s.partitions i).first_lba + lba =
            omega arith in
          rw (f, given)
            (partition_read_lem s d i lba count read w small
              ∙ rw y (
                  r.reads ((s.partitions i).first_lba + lba) count
                  ∙ rw on_parent (ap (λ x. asks r.function r.disk x count) moved)));
}

served_by :
    (fuel : ℕ) (s : Blocks) (d : ℕ) (f : BlockFunction) (given : DriverData)
    → (s.devices d).read ≡ f
    → (s.devices d).driver_data ≡ given
    → IsServed s d f given
    → ((e : ℕ) → e < d → Serves s fuel e)
    → ((e : ℕ) → e < d → (s.devices e).block_count < 2 ^ 64)
    → Serves s (suc fuel) d
unfolding IsServed
served_by fuel s d partition_function (partition_state i) ef eg (_, w) rest small =
    partition-Serves fuel s d i w ef eg (small w.parent w.earlier) (rest w.parent w.earlier)
served_by fuel s d (driver_function a) given ef eg served rest small = driver-Serves fuel s d a ef
served_by fuel s d partition_function no_data ef eg served rest small = absurd (ground arith)
served_by fuel s d partition_function (driver_pointer a) ef eg served rest small =
    absurd (ground arith)
served_by fuel s d no_function given ef eg served rest small = absurd (ground arith)

-- On well-formed tables and fuel for the devices up to it, every registered device lies on one
-- driver's device, which has all of its blocks. A read of blocks that the device has calls that
-- driver, with the same count, at the device's place on the disk plus the block asked for; any other
-- read is refused, and no driver is called.
pub block_read-Serves :
    (fuel : ℕ) (s : Blocks) (d : ℕ) → IsBlocks s → d < s.device_count → d < fuel → Serves s fuel d
block_read-Serves zero s d b here enough = absurd (omega arith)
block_read-Serves (suc fuel) s d b here enough =
    served_by fuel s d (s.devices d).read (s.devices d).driver_data refl refl (b.served d here)
      (λ e below. block_read-Serves fuel s e b (omega arith) (omega arith))
      (λ e below. b.counted e (omega arith))
