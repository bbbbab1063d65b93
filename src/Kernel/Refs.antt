-- ===== src/Kernel/Refs.antt =====
-- A reference count is one cell of one object: writing it changes no other count, no identity, no
-- table and no registry.
use jcos.Prelude.{
  ℕ, ◌≡◌, refl, ◌≢◌, Bool, true, false, ◌&&◌, List, some, arith, ◌==◌, if◌then◌else◌,
}
use jcos.Kernel.{
  Kernel, CapabilityTable, CapabilityType, type_none, type_thread, type_address_space,
  type_endpoint, type_device_resource, type_eq, refs_of, set_refs, object_identity,
  address_space_cr3,
}

pub refs_of-set_refs :
    (k : Kernel) (t u : CapabilityType) (a b v : ℕ)
    → t ≢ type_none
    → refs_of (set_refs k t a v) u b ≡ (if type_eq t u && (a == b) then v else refs_of k u b)
unfolding refs_of set_refs
refs_of-set_refs k type_none u a b v h = absurd (h refl)
refs_of-set_refs k type_thread type_thread a b v h = ground arith
refs_of-set_refs k type_thread type_none a b v h = refl
refs_of-set_refs k type_thread u a b v h = refl
refs_of-set_refs k type_address_space type_address_space a b v h = ground arith
refs_of-set_refs k type_address_space type_none a b v h = refl
refs_of-set_refs k type_address_space u a b v h = refl
refs_of-set_refs k type_endpoint type_endpoint a b v h = ground arith
refs_of-set_refs k type_endpoint type_none a b v h = refl
refs_of-set_refs k type_endpoint u a b v h = refl
refs_of-set_refs k type_device_resource type_device_resource a b v h = ground arith
refs_of-set_refs k type_device_resource type_none a b v h = refl
refs_of-set_refs k type_device_resource u a b v h = refl

pub object_identity-set_refs :
    (k : Kernel) (t u : CapabilityType) (a b v : ℕ) (inserting : Bool)
    → object_identity (set_refs k t a v) b u inserting ≡ object_identity k b u inserting
unfolding object_identity set_refs address_space_cr3
object_identity-set_refs k type_none u a b v i = refl
object_identity-set_refs k type_thread type_thread a b v i = ground arith
object_identity-set_refs k type_thread type_none a b v i = refl
object_identity-set_refs k type_thread u a b v i = refl
object_identity-set_refs k type_address_space type_address_space a b v i = ground arith
object_identity-set_refs k type_address_space type_none a b v i = refl
object_identity-set_refs k type_address_space u a b v i = refl
object_identity-set_refs k type_endpoint type_endpoint a b v i = ground arith
object_identity-set_refs k type_endpoint type_none a b v i = refl
object_identity-set_refs k type_endpoint u a b v i = refl
object_identity-set_refs k type_device_resource type_device_resource a b v i = ground arith
object_identity-set_refs k type_device_resource type_none a b v i = refl
object_identity-set_refs k type_device_resource u a b v i = refl

-- The kernel with other tables, registry and issuers, and the same objects.
abbrev pub with_tables : Kernel → (ℕ → CapabilityTable) → List ℕ → (ℕ → ℕ) → Bool → Kernel
with_tables k tables storage next ready = record k {
  tables = tables;
  table_storage = storage;
  next_generation = next;
  issuers_initialized = ready;
}

module _ (k : Kernel) (tables : ℕ → CapabilityTable) (storage : List ℕ) (next : ℕ → ℕ)
    (ready : Bool) where
  pub identity-with_tables :
      (o : ℕ) (u : CapabilityType) (inserting : Bool)
      → object_identity (with_tables k tables storage next ready) o u inserting
        ≡ object_identity k o u inserting
  unfolding object_identity address_space_cr3
  identity-with_tables o type_none i = refl
  identity-with_tables o type_thread i = refl
  identity-with_tables o type_address_space i = refl
  identity-with_tables o type_endpoint i = refl
  identity-with_tables o type_device_resource i = refl

  pub refs-with_tables :
      (u : CapabilityType) (o : ℕ)
      → refs_of (with_tables k tables storage next ready) u o ≡ refs_of k u o
  unfolding refs_of
  refs-with_tables type_none o = refl
  refs-with_tables type_thread o = refl
  refs-with_tables type_address_space o = refl
  refs-with_tables type_endpoint o = refl
  refs-with_tables type_device_resource o = refl

-- Writing a count leaves the tables, the registry and the issuers.
pub tables-set_refs :
    (k : Kernel) (t : CapabilityType) (o v : ℕ)
    → ((set_refs k t o v).tables ≡ k.tables)
      × ((set_refs k t o v).table_storage ≡ k.table_storage)
      × ((set_refs k t o v).next_generation ≡ k.next_generation)
      × ((set_refs k t o v).issuers_initialized ≡ k.issuers_initialized)
unfolding set_refs
tables-set_refs k type_none o v = (refl, refl, refl, refl)
tables-set_refs k type_thread o v = (refl, refl, refl, refl)
tables-set_refs k type_address_space o v = (refl, refl, refl, refl)
tables-set_refs k type_endpoint o v = (refl, refl, refl, refl)
tables-set_refs k type_device_resource o v = (refl, refl, refl, refl)

-- An object that may be inserted may be looked up, under the same identity.
pub identity_of_inserting :
    (k : Kernel) (o : ℕ) (u : CapabilityType) {identity : ℕ}
    → object_identity k o u true ≡ some identity
    → object_identity k o u false ≡ some identity
unfolding object_identity
identity_of_inserting k o type_none e = ground arith
identity_of_inserting k o type_thread e = ground arith
identity_of_inserting k o type_address_space e = ground arith
identity_of_inserting k o type_endpoint e = ground arith
identity_of_inserting k o type_device_resource e = ground arith
