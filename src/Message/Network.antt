-- ===== src/Message/Network.antt =====
-- Networks, their credentials and the bounded texts and lists of src/message.rs. A bounded
-- `heapless` vector is a list, and a bounded `heapless` string a text; `try_from_slice` is how one
-- is made from a longer value.
use enody_rs.Common.{ℕ, Bytes, Text, List, Option, none, some, leb, length, if◌then◌else◌}

abbrev pub network_scan_filter_max_len : ℕ
network_scan_filter_max_len = 4

abbrev pub network_scan_result_max_len : ℕ
network_scan_result_max_len = 16

abbrev pub wifi_ssid_max_len : ℕ
wifi_ssid_max_len = 32

abbrev pub wifi_password_max_len : ℕ
wifi_password_max_len = 64

abbrev pub spectral_sample_batch_size : ℕ
spectral_sample_batch_size = 32

-- `heapless::Vec::from_slice` and `heapless::String::try_from`.
unfoldable pub try_from_slice {ℓ} : {A : Type ℓ} → ℕ → List A → Option (List A)
try_from_slice capacity xs = if leb (length xs) capacity then some xs else none

pub data WifiAuth : Type 0 where
  unknown open_network secured : WifiAuth

pub record WifiNetwork : Type 0 where
  pub ssid : Option Text
  pub bssid : Option Bytes
  pub channel : Option ℕ
  pub rssi : Option ℕ
  pub auth : Option WifiAuth

-- `WifiNetwork::default()`. An `i8` signal strength is its bit pattern.
abbrev pub default_wifi_network : WifiNetwork
default_wifi_network = record {
  ssid = none;
  bssid = none;
  channel = none;
  rssi = none;
  auth = none;
}

pub data Network : Type 0 where
  wifi : WifiNetwork → Network

pub data WifiCredentials : Type 0 where
  password : Text → WifiCredentials

pub data NetworkCredentials : Type 0 where
  no_credentials : NetworkCredentials
  wifi_credentials : WifiCredentials → NetworkCredentials
