-- ===== src/Endpoints/Lifetime.antt =====
-- Lifetimes in kernel/endpoint.c: an endpoint that is destroyed has no capability left, and no two
-- endpoints that ever lived together share an identity.
use jcos.Prelude.{ℕ, ◌<◌, ◌≡◌, ◌≢◌, ap, true, arith}
use jcos.Kernel.{Kernel, type_endpoint, refs_of}
use jcos.Capability.{slot_at, table_live}
use jcos.Capability.Pins.{IsPinned, capability_counts}
use jcos.Endpoints.{endpoint_destroy}

-- No capability outlives its endpoint: where the reference counts are exact, after a destruction that
-- succeeded no occupied slot of a live table names the endpoint.
pub destroy_leaves_no_capability :
    (k k' : Kernel) (e t i : ℕ)
    → IsPinned k
    → endpoint_destroy k e ≡ (k', true)
    → table_live k' t ≡ true
    → i < 64
    → (slot_at k' t i).occupied ≡ true
    → (slot_at k' t i).type ≡ type_endpoint
    → (slot_at k' t i).object ≢ e
unfolding endpoint_destroy refs_of
destroy_leaves_no_capability k k' e t i p done live b occ typed object =
    let tables : (k'.tables ≡ k.tables)
        × (k'.table_storage ≡ k.table_storage)
        × (refs_of k type_endpoint e ≡ 0) =
      ground arith in
    let slots : slot_at k' t i ≡ slot_at k t i = ap (λ f. (f t).slots i) tables.0 in
    absurd (
      omega (
        arith,
        tables.2,
        capability_counts k t i type_endpoint e p (rw tables.1 at live) b (rw slots at occ)
            (rw slots at typed) (rw slots at object) (λ h. cc),
      ))
