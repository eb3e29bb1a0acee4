-- ===== src/ObjectStore/Ids.antt =====
-- Which objects share a compound identifier.
use hi_cr.Prelude.{ℕ, ◌%◌, ◌^◌, ◌≡◌, ◌<◌, ◌↔◌, arith}
use hi_cr.ObjectStore.{compound_id}

-- For block identifiers of 32 bits, two objects have the same compound identifier exactly when their
-- blocks are the same and their instances agree in the lower 32 bits; an identifier has 64 bits.
pub compound_id_eq :
    (instance_id id instance_id' id' : ℕ)
    → id < 2 ^ 32
    → id' < 2 ^ 32
    → ((compound_id instance_id id ≡ compound_id instance_id' id')
        ↔ ((instance_id % 2 ^ 32 ≡ instance_id' % 2 ^ 32) × (id ≡ id')))
      × (compound_id instance_id id < 2 ^ 64)
unfolding compound_id
compound_id_eq instance_id id instance_id' id' h h' =
    ((λ e. (omega arith, omega arith), λ (e, f). omega arith), omega arith)
