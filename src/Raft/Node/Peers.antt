-- ===== src/Raft/Node/Peers.antt =====
-- internal/raft/node.go, `syncTransportConfig`: which addresses the transport is left with.
use raft_kv.Common.{ℕ, ◌≡◌, ◌≢◌, Option, none, some, [], ◌∷◌, arith, ◌==◌, ==_iff, if◌then◌else◌}
use raft_kv.Common.Bytes.{Bytes}
use raft_kv.Common.Assoc.{Map, IsMap, nat_eq, lookup, insert, lookup-insert}
use raft_kv.Raft.Node.State.{Node}
use raft_kv.Raft.Node.Loop.{set_peers, sync_transport_config}

-- The address that the table gives another member, if it has one.
unfoldable pub member_address : ℕ → ℕ → Map ℕ Bytes → Option Bytes
member_address me id members = if id == me then none else elim (lookup id members) [
  | none ↦ none
  | some [] ↦ none
  | some (a ∷ addr) ↦ some (a ∷ addr)
]

set_peers_lem :
    (me id : ℕ) (members peers : Map ℕ Bytes)
    → IsMap members
    → lookup id (set_peers me members peers)
      ≡ elim (member_address me id members) [ none ↦ lookup id peers | some a ↦ some a ]
unfolding set_peers member_address lookup
set_peers_lem me id [] peers h = ground arith
set_peers_lem me id ((j, []) ∷ ms) peers h =
    ground (arith, h.0, ==_iff j id, set_peers_lem me id ms peers h.1)
set_peers_lem me id ((j, a ∷ addr) ∷ ms) peers h = ground (
  arith,
  h.0,
  ==_iff j id,
  ==_iff j me,
  ==_iff id me,
  set_peers_lem me id ms peers h.1,
  set_peers_lem me id ms (insert j (a ∷ addr) peers) h.1,
  lookup-insert j id (a ∷ addr) peers,
)

-- The membership has changed since the transport was told. Afterwards the transport has, for each
-- other member with an address, that address, and for every other id, a removed member's too, what
-- it had before.
pub sync_transport_config_lem :
    {S : Type 0} (n : Node S) (peers : Map ℕ Bytes)
    → IsMap n.core.members
    → n.transport_peers ≡ some peers
    → n.core.config_version ≢ n.synced_config_version
    → (after : Map ℕ Bytes) × ((sync_transport_config n).transport_peers ≡ some after)
      × ((sync_transport_config n).synced_config_version ≡ n.core.config_version)
      × ((id : ℕ)
          → lookup id after ≡ elim (member_address n.core.cfg.id id n.core.members) [
            | none ↦ lookup id peers
            | some a ↦ some a
          ])
unfolding sync_transport_config
sync_transport_config_lem n peers h e d = (
  set_peers n.core.cfg.id n.core.members peers,
  ground (arith, e, d, ==_iff n.core.config_version n.synced_config_version),
  ground (arith, e, d, ==_iff n.core.config_version n.synced_config_version),
  λ id. set_peers_lem n.core.cfg.id id n.core.members peers h,
)
