-- ===== src/Block.antt =====
-- kernel/block.c and kernel/partition.c: block devices, and the partitions that are windows of them.
pub mod Requests
pub mod Windows
pub mod Register
pub mod Tests
use jcos.Prelude.{
  ℕ, zero, suc, ◌+◌, ◌^◌, ◌≡◌, refl, Bool, true, false, not, ◌&&◌, ◌||◌, Option, none, some, List,
  [], ◌∷◌, ltb, leb, ◌==◌, if◌then◌else◌, nonzero, length, add64, bit_and, ◌-◌, ◌*◌, ◌/◌, ◌%◌,
}

-- The functions that a device's pointers name: a driver's, by its address, or those of kernel/partition.c.
pub data BlockFunction : Type 0 where
  no_function partition_function : BlockFunction
  driver_function : (address : ℕ) → BlockFunction

-- `driver_data`: a driver's pointer, or an entry of g_partitions.
pub data DriverData : Type 0 where
  no_data : DriverData
  driver_pointer : (address : ℕ) → DriverData
  partition_state : (index : ℕ) → DriverData

pub data BlockDeviceType : Type 0 where
  block_unknown block_nvme block_ahci block_virtio block_partition : BlockDeviceType

pub record BlockDevice : Type 0 where
  pub id : ℕ
  pub name : List ℕ
  pub type : BlockDeviceType
  pub block_size : ℕ
  pub block_count : ℕ
  pub read_only : Bool
  pub read : BlockFunction
  pub write : BlockFunction
  pub driver_data : DriverData

-- Devices are named by their index; `none` is the null pointer.
pub record PartitionState : Type 0 where
  pub used : Bool
  pub parent : Option ℕ
  pub first_lba : ℕ
  pub block_count : ℕ
  pub device : Option ℕ

-- g_devices, g_device_count, g_partitions and g_partition_count
pub record Blocks : Type 0 where
  pub devices : ℕ → BlockDevice
  pub device_count : ℕ
  pub partitions : ℕ → PartitionState
  pub partition_count : ℕ

abbrev pub max_devices : ℕ
max_devices = 16

abbrev pub name_max : ℕ
name_max = 31

abbrev pub max_partitions : ℕ
max_partitions = 128

abbrev pub zero_device : BlockDevice
zero_device = record {
  id = 0;
  name = [];
  type = block_unknown;
  block_size = 0;
  block_count = 0;
  read_only = false;
  read = no_function;
  write = no_function;
  driver_data = no_data;
}

abbrev pub has : BlockFunction → Bool
has no_function = false
has partition_function = true
has (driver_function address) = true

-- Names are lists of characters, without the terminator.
unfoldable pub string_equal : List ℕ → List ℕ → Bool
string_equal [] [] = true
string_equal [] (b ∷ bs) = false
string_equal (a ∷ as') [] = false
string_equal (a ∷ as') (b ∷ bs) = (a == b) && string_equal as' bs

-- The loop of `block_find`, on the devices left.
unfoldable pub find_device : Blocks → ℕ → (rounds index : ℕ) → List ℕ → Option ℕ
unfolding string_equal
find_device s count zero index name = none
find_device s count (suc rounds) index name =
    let rest = find_device s count rounds (index + 1) name in
    if string_equal (s.devices index).name name then some index else rest

unfoldable pub block_find : Blocks → List ℕ → Option ℕ
unfolding find_device
block_find s name = find_device s s.device_count s.device_count 0 name

abbrev pub found : Option ℕ → Bool
found none = false
found (some device) = true

abbrev pub prefix : ℕ → List ℕ → List ℕ
prefix zero name = []
prefix (suc n) [] = []
prefix (suc n) (c ∷ cs) = c ∷ prefix n cs

abbrev pub put_device : Blocks → ℕ → BlockDevice → Blocks
put_device s i d = record s { devices = λ j. if j == i then d else s.devices j }

-- What `block_register` refuses before it writes.
unfoldable pub register_refused :
    Blocks
    → List ℕ
    → (block_size block_count : ℕ) → (read_only : Bool) → (read write : BlockFunction) → Bool
unfolding block_find
register_refused s name block_size block_count read_only read write =
    leb max_devices s.device_count
    || not (nonzero (length name))
    || not (nonzero block_size)
    || not (nonzero block_count)
    || not (has read)
    || nonzero (bit_and block_size (block_size - 1))
    || (not read_only && not (has write))
    || found (block_find s name)

-- A name that is too long leaves the next entry cleared, with the part of the name that fits.
unfoldable pub block_register :
    Blocks
    → List ℕ
    → BlockDeviceType
    → (block_size block_count : ℕ) → (read_only : Bool) → (read write : BlockFunction) → DriverData
    → Blocks × Option ℕ
unfolding register_refused
block_register s name type block_size block_count read_only read write driver_data =
    let i = s.device_count in
    let cleared = put_device s i (record zero_device { name = prefix name_max name }) in
    let device : BlockDevice = record {
      id = i;
      name = name;
      type = type;
      block_size = block_size;
      block_count = block_count;
      read_only = read_only;
      read = read;
      write = write;
      driver_data = driver_data;
    } in
    if register_refused s name block_size block_count read_only read write
    then (s, none)
    else if ltb name_max (length name)
    then (cleared, none)
    else (record (put_device s i device) { device_count = i + 1 }, some i)

abbrev pub in_first : ℕ → ℕ → Bool
in_first n i = not (leb n i)

unfoldable pub block_init : Blocks → Blocks
block_init s = record s {
  devices = λ i. if in_first max_devices i then zero_device else s.devices i;
  device_count = 0;
}

unfoldable pub block_device : Blocks → ℕ → Option ℕ
block_device s index = if leb s.device_count index then none else some index

abbrev pub empty_partition : PartitionState
empty_partition = record {
  used = false;
  parent = none;
  first_lba = 0;
  block_count = 0;
  device = none;
}

unfoldable pub partition_init : Blocks → Blocks
partition_init s = record s {
  partitions = λ i. if in_first max_partitions i then empty_partition else s.partitions i;
  partition_count = 0;
}

-- What `partition_register` refuses.
unfoldable pub partition_refused :
    Blocks → (parent : ℕ) → List ℕ → (first_lba block_count : ℕ) → Bool
partition_refused s parent name first_lba block_count =
    not (nonzero (length name))
    || not (nonzero block_count)
    || leb max_partitions s.partition_count
    || leb (s.devices parent).block_count first_lba
    || ltb ((s.devices parent).block_count - first_lba) block_count

abbrev pub put_partition : Blocks → ℕ → PartitionState → Blocks
put_partition s i p = record s { partitions = λ j. if j == i then p else s.partitions j }

-- The end of `partition_register`.
abbrev pub registered_then : ℕ → Blocks × Option ℕ → Blocks × Option ℕ
registered_then i (s, none) = (put_partition s i (record (s.partitions i) { used = false }), none)
registered_then i (s, some device) = (
  record (put_partition s i (record (s.partitions i) { device = some device })) {
    partition_count = i + 1;
  },
  some device,
)

-- The parent is a device, not the null pointer.
unfoldable pub partition_register :
    Blocks → (parent : ℕ) → List ℕ → (first_lba block_count : ℕ) → Blocks × Option ℕ
unfolding partition_refused block_register
partition_register s parent name first_lba block_count =
    let i = s.partition_count in
    let d = s.devices parent in
    let stated = put_partition s i (record (s.partitions i) {
      used = true;
      parent = some parent;
      first_lba = first_lba;
      block_count = block_count;
    }) in
    if partition_refused s parent name first_lba block_count
    then (s, none)
    else registered_then i (
        block_register stated name block_partition d.block_size block_count d.read_only
          partition_function partition_function (partition_state i))

unfoldable pub block_capacity_bytes : BlockDevice → ℕ
block_capacity_bytes d =
    if ltb ((2 ^ 64 - 1) / d.block_size) d.block_count
    then 2 ^ 64 - 1
    else (d.block_count * d.block_size) % 2 ^ 64
