-- ===== src/Client/Host.antt =====
-- `RemoteHost` of src/host.rs.
use enody_rs.Common.{ℕ, Text, List, [], ◌∷◌, Option, none, some, Result, ok, err, ok_or}
use enody_rs.Error.{Error}
use enody_rs.Message.Topology.{HostInfo, FixtureInfo}
use enody_rs.Message.Values.{Duration, from_secs}
use enody_rs.Message.Network.{
  Network, default_wifi_network, NetworkCredentials, no_credentials, wifi_credentials, password,
  try_from_slice, network_scan_filter_max_len, wifi_ssid_max_len, wifi_password_max_len,
}
use enody_rs.Message.Host.{HostCommand, HostEvent}
use enody_rs.Message.Envelope.{Command, Event}
use enody_rs.Client.{
  RemoteRuntime, Exec, ◌>>=◌, lift, expected, matches, collect, request, request_until,
}
use enody_rs.Client.Fixture.{RemoteFixture}

pub record RemoteHost : Type 0 where
  pub info : HostInfo

abbrev host_info : Event → Option HostInfo
host_info (Event.host (HostEvent.info info)) = some info
host_info _ = none

abbrev pub count_of : Event → Option ℕ
count_of (Event.host (HostEvent.fixture_count count)) = some count
count_of _ = none

abbrev pub info_of : Event → Option FixtureInfo
info_of (Event.host (HostEvent.fixture_info info)) = some info
info_of _ = none

abbrev pub scan_results : Event → Option (List Network)
scan_results (Event.host (HostEvent.network_scan_complete results)) = some results
scan_results _ = none

abbrev pub joined_network : Event → Option Network
joined_network (Event.host (HostEvent.network_join_complete network)) = some network
joined_network _ = none

abbrev pub no_result : {A : Type 0} → Option A → Option (Unit {0})
no_result none = none
no_result (some a) = some tt

abbrev pub wait_duration : Duration
wait_duration = from_secs 10

module _ {S : Type 0} (remote : RemoteRuntime S) where
  unfoldable pub fetch_host_info : Exec S HostInfo
  fetch_host_info = do
    message ← request remote (Command.host HostCommand.info) none
    lift (expected (host_info message.event))

  unfoldable pub from_runtime : Exec S RemoteHost
  from_runtime = do info ← fetch_host_info; lift (ok (record { info = info }))

  module _ (self : RemoteHost) where
    unfoldable pub fixture_count : Exec S ℕ
    fixture_count = do
      message ← request remote (Command.host HostCommand.fixture_count) (some self.info.identifier)
      lift (expected (count_of message.event))

    unfoldable pub fixture_info : ℕ → Exec S FixtureInfo
    fixture_info index = do
      message ←
          request remote (Command.host (HostCommand.fixture_info index)) (some self.info.identifier)
      lift (expected (info_of message.event))

    unfoldable pub fixture_at : ℕ → Exec S RemoteFixture
    fixture_at i = do info ← fixture_info i; lift (ok (record { info = info }))

    unfoldable pub fixtures : Exec S (List RemoteFixture)
    fixtures = do count ← fixture_count; collect fixture_at 0 count

    -- The filters are at most 4 networks, the results at most 16, by their types.
    unfoldable pub network_scan : List Network → Exec S (List Network)
    network_scan filters = do
      message ←
          request_until remote (Command.host (HostCommand.network_scan filters))
            (some self.info.identifier) wait_duration
            (λ message. matches (scan_results message.event))
      lift (expected (scan_results message.event))

    unfoldable pub network_join : Network → NetworkCredentials → Exec S (Unit {0})
    network_join network credentials = do
      message ←
          request_until remote (Command.host (HostCommand.network_join network credentials))
            (some self.info.identifier) wait_duration
            (λ message. matches (joined_network message.event))
      lift (expected (no_result (joined_network message.event)))

    pub wifi_scan : Exec S (List Network)
    wifi_scan = do
      filters ← lift (
          ok_or
            (try_from_slice network_scan_filter_max_len (Network.wifi default_wifi_network ∷ []))
            Error.argument)
      network_scan filters

    credentials_for : Text → Result NetworkCredentials Error
    credentials_for [] = ok no_credentials
    credentials_for (c ∷ cs) = elim (try_from_slice wifi_password_max_len (c ∷ cs)) [
      | none ↦ err Error.argument
      | some text ↦ ok (wifi_credentials (password text))
    ]

    pub wifi_join : Text → Text → Exec S (Unit {0})
    wifi_join ssid pass = do
      name ← lift (ok_or (try_from_slice wifi_ssid_max_len ssid) Error.argument)
      credentials ← lift (credentials_for pass)
      network_join (Network.wifi (record default_wifi_network { ssid = some name })) credentials
