-- ===== src/Message/Host.antt =====
-- Commands and events of a host (src/message.rs).
use enody_rs.Common.{ℕ, List}
use enody_rs.Message.Network.{Network, NetworkCredentials}
use enody_rs.Message.Topology.{HostInfo, FixtureInfo}

pub data HostCommand : Type 0 where
  info : HostCommand
  fixture_count : HostCommand
  fixture_info : ℕ → HostCommand
  network_scan : List Network → HostCommand
  network_join : Network → NetworkCredentials → HostCommand

pub data HostEvent : Type 0 where
  info : HostInfo → HostEvent
  fixture_count : ℕ → HostEvent
  fixture_info : FixtureInfo → HostEvent
  network_scan_start : List Network → HostEvent
  network_scan_complete : List Network → HostEvent
  network_join_start : Network → HostEvent
  network_join_complete : Network → HostEvent
