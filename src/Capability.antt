-- ===== src/Capability.antt =====
-- kernel/capability.c: capability tables. A handle packs a generation and a slot index; an occupied
-- slot pins its object by one reference. Every entry holds local IRQ exclusion, so it is one step.
pub mod Slots
pub mod Handles
pub mod Lookup
pub mod Weights
pub mod Pins
pub mod Counts
pub mod Evolve
pub mod Calls
pub mod Stale
mod Tests
use jcos.Prelude.{
  ℕ, zero, suc, ◌+◌, ◌-◌, ◌*◌, ◌/◌, ◌%◌, ◌^◌, ◌≡◌, refl, Bool, true, false, not, ◌&&◌, ◌||◌, Option,
  none, some, List, [], ◌∷◌, bit_and, bit_or, ltb, leb, ◌==◌, if◌then◌else◌, nonzero, u32, u64_max,
  set, length, sub64, sub32, add64, add32,
}
use jcos.ObjectStorage.{
  object_storage_find, object_storage_empty, object_storage_count, storage_live,
}
use jcos.Kernel.{
  Kernel, CapabilitySlot, CapabilityTable, CapabilityType, type_none, type_thread,
  type_address_space, type_endpoint, type_device_resource, type_eq, update, object_identity,
  refs_of, set_refs,
}

-- CAPABILITY_TABLE_CAPACITY
abbrev pub table_capacity : ℕ
table_capacity = 64

abbrev pub generation_max : ℕ
generation_max = 2 ^ 32 - 1

abbrev pub rights_all : ℕ
rights_all = 0x7f

-- `rights & ~CAPABILITY_RIGHT_ALL`
abbrev pub has_unknown_rights : ℕ → Bool
has_unknown_rights rights = nonzero (bit_and rights (u64_max - rights_all))

abbrev pub empty_slot : CapabilitySlot
empty_slot = record {
  object = 0;
  object_id = 0;
  rights = 0;
  generation = 0;
  type = type_none;
  occupied = false;
}

-- `k_memset(table, 0, …)`
abbrev pub empty_table : CapabilityTable
empty_table = record { slots = λ _. empty_slot; count = 0; initialized = false }

abbrev pub slot_at : Kernel → ℕ → ℕ → CapabilitySlot
slot_at k table i = (k.tables table).slots i

abbrev pub table_live : Kernel → ℕ → Bool
table_live k table = storage_live k.table_storage table

unfoldable pub type_valid : CapabilityType → Bool
type_valid type_none = false
type_valid _ = true

id_matches : Option ℕ → ℕ → Bool
id_matches none id = false
id_matches (some identity) id = identity == id

-- `slot_refs` returns a counter that is not zero.
unfoldable pub slot_refs : Kernel → CapabilitySlot → Bool
unfolding id_matches
slot_refs k slot =
    if not slot.occupied
      || not (nonzero slot.generation)
      || not (nonzero slot.rights)
      || has_unknown_rights slot.rights
    then false
    else nonzero (refs_of k slot.type slot.object)
      && id_matches (object_identity k slot.object slot.type false) slot.object_id

-- The checks of `table_valid` on one slot.
slot_consistent : Kernel → CapabilitySlot → Bool
slot_consistent k slot =
    if slot.occupied
    then slot_refs k slot
    else not (
        nonzero slot.object
        || nonzero slot.object_id
        || nonzero slot.rights
        || not (type_eq slot.type type_none))

-- The loop of `table_valid` from slot `i` on: the count, or `none` at the first bad slot.
unfoldable pub count_slots : Kernel → ℕ → ℕ → ℕ → ℕ → Option ℕ
unfolding slot_consistent
count_slots k table zero i count = some count
count_slots k table (suc left) i count =
    let count' = if (slot_at k table i).occupied then count + 1 else count in
    let rest = count_slots k table left (i + 1) count' in
    if slot_consistent k (slot_at k table i) then rest else none

unfoldable pub count_is : Option ℕ → ℕ → Bool
count_is none count = false
count_is (some n) count = n == count

unfoldable pub table_valid : Kernel → ℕ → Bool
unfolding count_is count_slots
table_valid k table =
    if not (table_live k table)
      || not (k.tables table).initialized
      || ltb table_capacity (k.tables table).count
    then false
    else count_is (count_slots k table table_capacity 0 0) (k.tables table).count

-- The issuer after a grant and the generation granted; `none` is the return value false.
unfoldable pub take_generation : ℕ → Option (ℕ × ℕ)
take_generation next =
    if not (nonzero next) || ltb generation_max next then none else some (next + 1, u32 next)

-- The stores of `capability_table_init`.
unfoldable pub install_table : Kernel → ℕ → Kernel
install_table k table = record k {
  next_generation = if k.issuers_initialized then k.next_generation else (λ _. 1);
  issuers_initialized = true;
  tables = update k.tables table (record empty_table { initialized = true });
  table_storage = set k.table_storage (object_storage_empty k.table_storage) table;
}

abbrev pub can_install : Kernel → ℕ → Bool
can_install k table =
    not (table_live k table) && ltb (object_storage_empty k.table_storage) (length k.table_storage)

unfoldable pub capability_table_init : Kernel → ℕ → Kernel × Bool
capability_table_init k table =
    if nonzero table && can_install k table then (install_table k table, true) else (k, false)

-- The stores of `capability_table_destroy`.
pub remove_table : Kernel → ℕ → Kernel
remove_table k table = record k {
  tables = update k.tables table empty_table;
  table_storage = set k.table_storage (object_storage_find k.table_storage table) 0;
}

pub capability_table_destroy : Kernel → ℕ → Kernel × Bool
capability_table_destroy k table =
    if table_valid k table && ((k.tables table).count == 0)
    then (remove_table k table, true)
    else (k, false)

pub capability_table_count : Kernel → ℕ → ℕ
capability_table_count k table =
    if table_live k table && (k.tables table).initialized then (k.tables table).count else 0

pub capability_table_empty : Kernel → ℕ → Bool
capability_table_empty k table = table_valid k table && ((k.tables table).count == 0)

-- `((u64)generation << 32) | i`
unfoldable pub make_handle : ℕ → ℕ → ℕ
make_handle generation i = bit_or (generation * 2 ^ 32) i

-- A write of one slot of one table.
abbrev pub write_slot : Kernel → ℕ → ℕ → CapabilitySlot → ℕ → Kernel
write_slot k table i slot count = record k {
  tables =
      update k.tables table
        (record (k.tables table) { slots = update (k.tables table).slots i slot; count = count });
}

-- The stores of `capability_insert` into slot `i`, with the issuer already advanced to `next`.
unfoldable pub grant_slot : Kernel → ℕ → ℕ → CapabilitySlot → ℕ → Kernel
grant_slot k table i slot next =
    let pinned = set_refs k slot.type slot.object (add64 (refs_of k slot.type slot.object) 1) in
    write_slot (record pinned { next_generation = update k.next_generation i next }) table i slot
      (add32 (k.tables table).count 1)

-- The loop of `capability_insert` from slot `i` on: the new state and the handle.
unfoldable pub insert_loop :
    Kernel
    → (table object identity : ℕ) → CapabilityType
    → (rights left i : ℕ) → Option (Kernel × ℕ)
insert_loop k table object identity type rights zero i = none
insert_loop k table object identity type rights (suc left) i =
    let rest = insert_loop k table object identity type rights left (i + 1) in
    if (slot_at k table i).occupied then rest else elim (take_generation (k.next_generation i)) [
      | none ↦ rest
      | some (next, generation) ↦ some (
        grant_slot k table i
            (record {
              object = object;
              object_id = identity;
              rights = rights;
              generation = generation;
              type = type;
              occupied = true;
            })
            next,
        make_handle generation i,
      )
    ]

-- `none` is the return value false, which leaves the kernel as it was and `*out_handle` invalid.
unfoldable pub capability_insert :
    Kernel → (table object : ℕ) → CapabilityType → (rights : ℕ) → Option (Kernel × ℕ)
capability_insert k table object type rights =
    if not (table_valid k table)
      || not (type_valid type)
      || not (nonzero rights)
      || has_unknown_rights rights
      || ((k.tables table).count == table_capacity)
    then none
    else elim (object_identity k object type true) [
      | none ↦ none
      | some identity ↦
          if refs_of k type object == u64_max
          then none
          else insert_loop k table object identity type rights table_capacity 0
    ]

-- The index of the slot that a handle names.
unfoldable pub resolve_slot : Kernel → ℕ → ℕ → Option ℕ
resolve_slot k table handle =
    if not (table_live k table) || not (k.tables table).initialized || not (nonzero handle)
    then none
    else if leb table_capacity (u32 handle) || not (nonzero (u32 (handle / 2 ^ 32)))
    then none
    else if not ((slot_at k table (u32 handle)).generation == u32 (handle / 2 ^ 32))
        || not (slot_refs k (slot_at k table (u32 handle)))
    then none
    else some (u32 handle)

-- The tests of `capability_lookup_rights` on the resolved slot.
abbrev pub grants : CapabilitySlot → CapabilityType → ℕ → Bool
grants slot expected required =
    type_valid expected
    && not (has_unknown_rights required)
    && type_eq slot.type expected
    && (bit_and slot.rights required == required)

-- The object, or `none` for the return value false.
unfoldable pub capability_lookup_rights :
    Kernel → (table handle : ℕ) → CapabilityType → ℕ → Option ℕ
capability_lookup_rights k table handle expected required = elim (resolve_slot k table handle) [
  | none ↦ none
  | some i ↦
      if grants (slot_at k table i) expected required then some (slot_at k table i).object else none
]

pub capability_lookup : Kernel → (table handle : ℕ) → CapabilityType → Option ℕ
unfolding capability_lookup_rights
capability_lookup k table handle expected = capability_lookup_rights k table handle expected 0

-- `delete_slot`: the generation stays in the freed slot.
unfoldable pub delete_slot : Kernel → ℕ → ℕ → Kernel
delete_slot k table i =
    let slot = slot_at k table i in
    let unpinned = set_refs k slot.type slot.object (sub64 (refs_of k slot.type slot.object) 1) in
    write_slot unpinned table i (record empty_slot { generation = slot.generation })
      (sub32 (k.tables table).count 1)

unfoldable pub capability_revoke : Kernel → (table handle : ℕ) → Kernel × Bool
capability_revoke k table handle = elim (resolve_slot k table handle) [
  | none ↦ (k, false)
  | some i ↦ if table_valid k table then (delete_slot k table i, true) else (k, false)
]

-- The slots that `delete_selected` deletes.
abbrev pub selected : CapabilitySlot → ℕ → CapabilityType → Bool → Bool
selected slot object type all =
    slot.occupied && (all || ((slot.object == object) && type_eq slot.type type))

-- The inner loop of the multiplicity check: slots from `j` on with the same object and type.
pub matching : Kernel → ℕ → ℕ → CapabilityType → ℕ → ℕ → ℕ
matching k table object type zero j = 0
matching k table object type (suc left) j =
    (if (slot_at k table j).occupied
        && ((slot_at k table j).object == object)
        && type_eq (slot_at k table j).type type
      then 1
      else 0)
    + matching k table object type left (j + 1)

-- The multiplicity check, from slot `i` on.
pub multiplicity_held : Kernel → ℕ → ℕ → CapabilityType → Bool → ℕ → ℕ → Bool
multiplicity_held k table object type all zero i = true
multiplicity_held k table object type all (suc left) i =
    let slot = slot_at k table i in
    let rest = multiplicity_held k table object type all left (i + 1) in
    if selected slot object type all
      && (not (slot_refs k slot)
          || ltb (refs_of k slot.type slot.object)
              (matching k table slot.object slot.type table_capacity 0))
    then false
    else rest

-- The deleting loop, from slot `i` on.
pub delete_loop : Kernel → ℕ → ℕ → CapabilityType → Bool → ℕ → ℕ → Kernel
delete_loop k table object type all zero i = k
delete_loop k table object type all (suc left) i =
    delete_loop (if selected (slot_at k table i) object type all then delete_slot k table i else k)
      table object type all left (i + 1)

pub delete_selected : Kernel → ℕ → ℕ → CapabilityType → Bool → Kernel × Bool
delete_selected k table object type all =
    if not (table_valid k table) || not (multiplicity_held k table object type all table_capacity 0)
    then (k, false)
    else (delete_loop k table object type all table_capacity 0, true)

pub capability_revoke_all : Kernel → ℕ → Kernel × Bool
unfolding delete_selected
capability_revoke_all k table = delete_selected k table 0 type_none true

pub capability_revoke_object : Kernel → ℕ → ℕ → CapabilityType → Kernel × Bool
unfolding delete_selected
capability_revoke_object k table object type =
    if not (nonzero object) || not (type_valid type)
    then (k, false)
    else delete_selected k table object type false
