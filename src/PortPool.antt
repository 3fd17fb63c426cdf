-- ===== src/PortPool.antt =====
-- internal/rtpmanager/portpool/pool.go: the pool of even RTP ports. Each method runs under the
-- pool's mutex, so a call is one step. Ports are not negative.
pub mod Invariant
pub mod Calls
mod Tests
use switchboard.Prelude.{
  ℕ, zero, suc, ◌+◌, ◌%◌, ◌⊎◌, inl, inr, Bool, true, Option, none, some, [], ltb, if◌then◌else◌,
  length, get_elem?, ◌==◌, nat_eq,
}
use switchboard.GoMap
use switchboard.GoMap.{GoMap}

pub record PortPool : Type 0 where
  pub min_port : ℕ
  pub max_port : ℕ
  pub available : GoMap ℕ Bool
  pub allocated : GoMap ℕ Bool

pub data Err : Type 0 where
  no_ports_available : ℕ → ℕ → Err

-- `for port := minPort; port < maxPort; port += 2`, with fuel.
unfoldable pub fill : ℕ → ℕ → ℕ → GoMap ℕ Bool → GoMap ℕ Bool
fill zero port max_port available = available
fill (suc f) port max_port available =
    let rest = fill f (port + 2) max_port (GoMap.put port true available) in
    if ltb port max_port then rest else available

-- The first statement of `NewPortPool`.
abbrev pub round_up : ℕ → ℕ
round_up min_port = if min_port % 2 == 0 then min_port else min_port + 1

-- The loop runs fewer than `max_port` times.
unfoldable pub new_port_pool : ℕ → ℕ → PortPool
unfolding fill
new_port_pool min_port max_port = record {
  min_port = round_up min_port;
  max_port = max_port;
  available = fill max_port (round_up min_port) max_port [];
  allocated = [];
}

-- Takes the port that the `range` over `available` met first.
unfoldable pub take_port : PortPool → Option ℕ → PortPool × (Err ⊎ (ℕ × ℕ))
take_port p none = (p, inl (no_ports_available p.min_port p.max_port))
take_port p (some port) = (
  record p {
    available = GoMap.delete port p.available;
    allocated = GoMap.put port true p.allocated;
  },
  inr (port, port + 1),
)

-- `Allocate`. The `range` stops at its first key, which Go does not specify: `order` lists the
-- keys in some order by its effect on the head, as an index into them.
unfoldable pub allocate : ℕ → PortPool → PortPool × (Err ⊎ (ℕ × ℕ))
unfolding take_port
allocate pick p = take_port p (get_elem? (GoMap.keys p.available) (pick % length p.available))

-- `Release`.
unfoldable pub release : ℕ → PortPool → PortPool
release rtp_port p =
    if GoMap.has rtp_port p.allocated
    then record p {
      allocated = GoMap.delete rtp_port p.allocated;
      available = GoMap.put rtp_port true p.available;
    }
    else p

-- `Available` and `Allocated`.
unfoldable pub available : PortPool → ℕ
available p = length p.available

unfoldable pub allocated : PortPool → ℕ
allocated p = length p.allocated
