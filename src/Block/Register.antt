-- ===== src/Block/Register.antt =====
-- Registering devices and partitions keeps the tables well formed (kernel/block.c, kernel/partition.c).
use jcos.Prelude.{
  ℕ, ◌+◌, ◌^◌, ◌<◌, ◌≤◌, ◌≡◌, refl, Bool, true, false, Option, some, List, arith, ltb, if_both,
  Bool-cases, ◌⊎◌, inl, inr, length,
}
use jcos.Block.{
  BlockFunction, no_function, partition_function, driver_function, DriverData, no_data,
  driver_pointer, partition_state, BlockDeviceType, Blocks, partition_refused, register_refused,
  block_register, partition_register, registered_then, put_partition, name_max,
}
use jcos.Block.Windows.{IsWindow, IsServed, IsBlocks}

-- What is registered stays, and more may be.
record Extends (s s' : Blocks) : Type 0 where
  pub devices : (d : ℕ) → d < s.device_count → s'.devices d ≡ s.devices d
  pub partitions : (i : ℕ) → i < s.partition_count → s'.partitions i ≡ s.partitions i
  pub more : s.partition_count ≤ s'.partition_count

extended-IsWindow :
    (s s' : Blocks) (d i : ℕ)
    → Extends s s'
    → d < s.device_count
    → i < s.partition_count
    → IsWindow s d i
    → IsWindow s' d i
extended-IsWindow s s' d i x here known w =
    let p = x.partitions i known in
    let dev = x.devices d here in
    let par = x.devices w.parent (omega (arith, w.earlier)) in
    record {
      parent = w.parent;
      names = rw p w.names;
      earlier = w.earlier;
      inside = rw (p, par) w.inside;
      same = rw (p, dev) w.same;
      guarded = rw (dev, par) w.guarded;
    }

extended-IsServed :
    (s s' : Blocks) (d : ℕ)
    → Extends s s'
    → d < s.device_count
    → (f : BlockFunction) (given : DriverData) → IsServed s d f given
    → IsServed s' d f given
unfolding IsServed
extended-IsServed s s' d x here partition_function (partition_state i) (known, w) =
    (omega (arith, x.more), extended-IsWindow s s' d i x here known w)
extended-IsServed s s' d x here (driver_function a) given h = refl
extended-IsServed s s' d x here partition_function no_data h = absurd (ground arith)
extended-IsServed s s' d x here partition_function (driver_pointer a) h = absurd (ground arith)
extended-IsServed s s' d x here no_function given h = absurd (ground arith)

-- Nothing is registered.
same-IsBlocks :
    (s s' : Blocks) → Extends s s' → s'.device_count ≡ s.device_count → IsBlocks s → IsBlocks s'
same-IsBlocks s s' x same b = record {
  counted = λ d h.
      let here : d < s.device_count = omega (arith, same) in
      rw (x.devices d here) (b.counted d here);
  served = λ d h.
      let here : d < s.device_count = omega (arith, same) in
      rw (x.devices d here) (
        extended-IsServed s s' d x here (s.devices d).read (s.devices d).driver_data
          (b.served d here));
}

last_or_before : (d n : ℕ) → d < n + 1 → (d < n) ⊎ (d ≡ n)
last_or_before d n h = elim (Bool-cases (ltb d n)) [
  | inl y ↦ inl (ground arith)
  | inr n' ↦ inr (ground arith)
]

-- One more device.
more-IsBlocks :
    (s s' : Blocks)
    → Extends s s'
    → s'.device_count ≡ s.device_count + 1
    → (s'.devices s.device_count).block_count < 2 ^ 64
    → IsServed s' s.device_count
        (s'.devices s.device_count).read
        (s'.devices s.device_count).driver_data
    → IsBlocks s
    → IsBlocks s'
more-IsBlocks s s' x one small served b = record {
  counted = λ d h. elim (last_or_before d s.device_count (omega (arith, one))) [
    | inl here ↦ rw (x.devices d here) (b.counted d here)
    | inr last ↦ rw last small
  ];
  served = λ d h. elim (last_or_before d s.device_count (omega (arith, one))) [
    | inl here ↦ rw (x.devices d here) (
        extended-IsServed s s' d x here (s.devices d).read (s.devices d).driver_data
          (b.served d here))
    | inr last ↦ rw last served
  ];
}

driver-IsServed :
    (s : Blocks) (d : ℕ) (f : BlockFunction) (given : DriverData) (a : ℕ)
    → f ≡ driver_function a
    → IsServed s d f given
unfolding IsServed
driver-IsServed s d f given a h = rw h refl

-- A driver's device: its number of blocks is a word.
pub block_register-IsBlocks :
    (s : Blocks) (name : List ℕ) (type : BlockDeviceType) (size count : ℕ) (read_only : Bool)
    (a : ℕ) (write : BlockFunction) (given : DriverData)
    → count < 2 ^ 64
    → IsBlocks s
    → IsBlocks (block_register s name type size count read_only (driver_function a) write given).0
unfolding block_register IsServed
block_register-IsBlocks s name type size count read_only a write given small b =
    let P : Blocks × Option ℕ → Type 0 = λ o. IsBlocks o.0 in
    if_both P (register_refused s name size count read_only (driver_function a) write) (λ _. b)
      λ _.
        if_both P (ltb name_max (length name))
          (λ _.
            same-IsBlocks s _
              (record {
                devices = λ d h. ground arith;
                partitions = λ i h. refl;
                more = omega arith;
              })
              refl b)
          (λ _.
            more-IsBlocks s _
              (record {
                devices = λ d h. ground arith;
                partitions = λ i h. refl;
                more = omega arith;
              })
              refl (ground arith) (driver-IsServed _ s.device_count _ _ a (ground arith)) b)

-- A partition's device, whose state is in the table already.
partition-IsServed :
    (s : Blocks) (d i : ℕ) (f : BlockFunction) (given : DriverData)
    → f ≡ partition_function
    → given ≡ partition_state i
    → i < s.partition_count
    → IsWindow s d i
    → IsServed s d f given
unfolding IsServed
partition-IsServed s d i f given ef eg known w = rw (ef, eg) (known, w)

accepted_fits :
    (s : Blocks) (parent : ℕ) (name : List ℕ) (first count : ℕ)
    → partition_refused s parent name first count ≡ false
    → first + count ≤ (s.devices parent).block_count
unfolding partition_refused
accepted_fits s parent name first count h = ground arith

-- With a registered device as the parent, registering a partition keeps the tables well formed, whether
-- it is registered or refused: each partition's blocks are blocks of an earlier device.
pub partition_register-IsBlocks :
    (s : Blocks) (parent : ℕ) (name : List ℕ) (first count : ℕ)
    → parent < s.device_count
    → IsBlocks s
    → IsBlocks (partition_register s parent name first count).0
unfolding partition_register block_register
partition_register-IsBlocks s parent name first count here b =
    let i = s.partition_count in
    let d = s.devices parent in
    let stated = put_partition s i (record (s.partitions i) {
      used = true;
      parent = some parent;
      first_lba = first;
      block_count = count;
    }) in
    let P : Blocks × Option ℕ → Type 0 = λ o. IsBlocks o.0 in
    let Q : Blocks × Option ℕ → Type 0 = λ o. IsBlocks (registered_then i o).0 in
    if_both P (partition_refused s parent name first count) (λ _. b)
      λ accepted.
        let fits = accepted_fits s parent name first count accepted in
        let whole = b.counted parent here in
        if_both Q
          (register_refused stated name d.block_size count d.read_only partition_function
            partition_function)
          (λ _.
            same-IsBlocks s _
              (record {
                devices = λ e h. refl;
                partitions = λ j h. ground arith;
                more = omega arith;
              })
              refl b)
          λ _.
            if_both Q (ltb name_max (length name))
              (λ _.
                same-IsBlocks s _
                  (record {
                    devices = λ e h. ground arith;
                    partitions = λ j h. ground arith;
                    more = omega arith;
                  })
                  refl b)
              λ _.
                more-IsBlocks s _
                  (record {
                    devices = λ e h. ground arith;
                    partitions = λ j h. ground arith;
                    more = omega arith;
                  })
                  refl (ground (arith, fits, whole))
                  (partition-IsServed _ s.device_count i _ _ (ground arith) (ground arith)
                    (omega arith)
                    (record {
                      parent = parent;
                      names = ground arith;
                      earlier = here;
                      inside = ground (arith, fits);
                      same = ground arith;
                      guarded = ground arith;
                    }))
                  b
