-- ===== src/Wifi/Device.antt =====
-- `WifiDiscoveredDevice` of src/wifi.rs, and the token that a discovered device is given.
use enody_rs.Common.{
  ℕ, ◌≡◌, ◌↔◌, refl, ap, sym, ◌∙◌, Bool, true, false, not, ◌&&◌, Text, codes, text_eq, [], ◌∷◌,
  ◌++◌, Option, none, some, if◌then◌else◌, arith,
}
use enody_rs.Strings.Numbers.{decimal}
use enody_rs.Strings.Parts.{starts_with, trim_end_matches}
use enody_rs.Strings.Case.{to_ascii_lowercase, eq_ignore_ascii_case}
use enody_rs.Message.Topology.{Identifier}
use enody_rs.Message.Runtime.{Token}

abbrev pub wifi_port : ℕ
wifi_port = 8788

abbrev pub wifi_protocol : Text
wifi_protocol = codes "enody-v1"

abbrev pub wifi_auth : Text
wifi_auth = codes "noise-psk"

pub record Ipv4Addr : Type 0 where
  pub a : ℕ
  pub b : ℕ
  pub c : ℕ
  pub d : ℕ

abbrev display_address : Ipv4Addr → Text
display_address x =
    decimal x.a ++ (b'.' ∷ (decimal x.b ++ (b'.' ∷ (decimal x.c ++ (b'.' ∷ decimal x.d)))))

-- The field `instance`.
pub record WifiDiscoveredDevice : Type 0 where
  pub instance_name : Text
  pub host : Text
  pub address : Option Ipv4Addr
  pub model : Option Text
  pub api_version : Option ℕ
  pub host_id : Option Identifier
  pub firmware_version : Option Text
  pub http_port : Option ℕ
  pub port : Option ℕ
  pub protocol : Option Text
  pub auth : Option Text

abbrev pub default_device : WifiDiscoveredDevice
default_device = record {
  instance_name = [];
  host = [];
  address = none;
  model = none;
  api_version = none;
  host_id = none;
  firmware_version = none;
  http_port = none;
  port = none;
  protocol = none;
  auth = none;
}

abbrev port_or_default : Option ℕ → ℕ
port_or_default none = wifi_port
port_or_default (some port) = port

abbrev non_empty : Text → Option Text
non_empty [] = none
non_empty (c ∷ cs) = some (c ∷ cs)

abbrev endpoint_host : Option Ipv4Addr → Text → Option Text
endpoint_host (some address) host = some (display_address address)
endpoint_host none host = non_empty (trim_end_matches b'.' host)

abbrev with_port : Option Text → ℕ → Option Text
with_port none port = none
with_port (some host) port = some (host ++ (b':' ∷ decimal port))

unfoldable pub endpoint : WifiDiscoveredDevice → Option Text
endpoint device = with_port (endpoint_host device.address device.host) (port_or_default device.port)

abbrev model_is_ep01 : Option Text → Text → Bool
model_is_ep01 (some model) name = eq_ignore_ascii_case model (codes "ep01")
model_is_ep01 none name =
    starts_with (codes "ep01 ") (to_ascii_lowercase (trim_end_matches b'.' name))

unfoldable pub is_ep01 : WifiDiscoveredDevice → Bool
is_ep01 device = model_is_ep01 device.model device.instance_name

-- `x.as_deref() == Some(text)`
abbrev pub is_text : Text → Option Text → Bool
is_text text none = false
is_text text (some t) = text_eq t text

abbrev pub is_some {ℓ} : {A : Type ℓ} → Option A → Bool
is_some none = false
is_some (some a) = true

unfoldable pub is_token_generation_candidate : WifiDiscoveredDevice → Bool
is_token_generation_candidate device =
    is_some (endpoint device) && (is_text wifi_protocol device.protocol && is_ep01 device)

abbrev pub stored_for : Option Token → Option Text → Option Text → Option Token
stored_for none protocol auth = none
stored_for (some stored) protocol auth =
    if not (is_text wifi_protocol protocol)
    then none
    else if not (is_text wifi_auth auth)
    then none
    else some stored

abbrev pub token_for_host :
    (Identifier → Option Token) → Option Identifier → Option Text → Option Text → Option Token
token_for_host tokens none protocol auth = none
token_for_host tokens (some host_id) protocol auth = stored_for (tokens host_id) protocol auth

-- The map of tokens is a function.
unfoldable pub token_for_discovered_device :
    (Identifier → Option Token) → WifiDiscoveredDevice → Option Token
token_for_discovered_device tokens device =
    token_for_host tokens device.host_id device.protocol device.auth

-- The device names its host, has the supported protocol and authentication, and the host has the token.
abbrev pub Accepts : (Identifier → Option Token) → WifiDiscoveredDevice → Token → Type 0
Accepts tokens device token =
    ((id : Identifier) × (device.host_id ≡ some id) × (tokens id ≡ some token))
    × (is_text wifi_protocol device.protocol ≡ true)
    × (is_text wifi_auth device.auth ≡ true)

stored_for_iff :
    (stored : Option Token) (protocol auth : Option Text) (token : Token)
    → (stored_for stored protocol auth ≡ some token) ↔ (
        (stored ≡ some token)
        × (is_text wifi_protocol protocol ≡ true)
        × (is_text wifi_auth auth ≡ true))
stored_for_iff none protocol auth token = (λ h. absurd cc, λ h. absurd cc)
stored_for_iff (some t) protocol auth token = (λ h. ground arith, λ h. ground arith)

token_for_host_iff :
    (tokens : Identifier → Option Token) (device : WifiDiscoveredDevice) (o : Option Identifier)
    (token : Token)
    → device.host_id ≡ o
    → (token_for_host tokens o device.protocol device.auth ≡ some token)
      ↔ Accepts tokens device token
token_for_host_iff tokens device none token h = (λ e. absurd cc, λ e. absurd cc)
token_for_host_iff tokens device (some id) token h =
    let (there, back) = stored_for_iff (tokens id) device.protocol device.auth token in
    (
      (λ e. let (found, protocol, auth) = there e in ((id, h, found), protocol, auth)),
      (λ a.
          let ((id', named, found), protocol, auth) = a in
          let same : id' ≡ id = cc in back (ap tokens (sym same) ∙ found, protocol, auth)),
    )

-- A device is given a token exactly when it names its host, has the supported protocol and
-- authentication, and its host has that token.
pub token_for-Accepts :
    (tokens : Identifier → Option Token) (device : WifiDiscoveredDevice) (token : Token)
    → (token_for_discovered_device tokens device ≡ some token) ↔ Accepts tokens device token
unfolding token_for_discovered_device
token_for-Accepts tokens device token = token_for_host_iff tokens device device.host_id token refl
