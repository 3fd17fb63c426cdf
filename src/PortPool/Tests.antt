-- ===== src/PortPool/Tests.antt =====
-- Runs of the port pool, and the theorems at concrete pools.
use switchboard.Prelude.{◌≡◌, refl, inl, true, [], ◌∷◌, nat_eq}
use switchboard.GoMap
use switchboard.PortPool.{PortPool, new_port_pool, allocate, no_ports_available}
use switchboard.PortPool.Calls.{run, run-Inv, allocate-Allocates, Allocates, allocates}

abbrev small : PortPool
small = run (new_port_pool 10001 10007) (allocates 5 ∷ [])

small_allocated : small.allocated ≡ (10006, true) ∷ []
unfolding run new_port_pool allocate GoMap.keys GoMap.delete GoMap.put
small_allocated = refl

small_refuses :
    (allocate 0 (run (new_port_pool 4 6) (allocates 0 ∷ []))).1 ≡ inl (no_ports_available 4 6)
unfolding run new_port_pool allocate GoMap.keys GoMap.delete GoMap.put
small_refuses = refl

allocate-Allocates_example : Allocates small (allocate 7 small)
allocate-Allocates_example = allocate-Allocates 7 small (run-Inv 10001 10007 (allocates 5 ∷ []))
