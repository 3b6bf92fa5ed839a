-- ===== src/CommandLine/Examples.antt =====
-- Tests of the prompts and of the check of a token, and a theorem at a concrete input.
use enody_rs.Common.{
  ℕ, ◌≡◌, refl, if◌then◌else◌, Text, List, [], ◌∷◌, codes, some, Result, ok, err, ltb, map,
}
use enody_rs.Error.{Error}
use enody_rs.Message.Network.{wifi, default_wifi_network}
use enody_rs.Message.Runtime.{Token}
use enody_rs.Strings.Numbers.{parse_uint, decimal}
use enody_rs.Strings.Parts.{trim_end_matches}
use enody_rs.Wifi.Device.{WifiDiscoveredDevice, default_device, endpoint}
use enody_rs.CommandLine.Prompts.{
  pop_line_ends, prompt_manual_ssid, prompt_wifi_token_generation_device,
  select_wifi_token_generation_device, pick_network, prompt_wifi_ssid,
}
use enody_rs.CommandLine.Verify.{
  Target, Attempt, from_endpoint, from_discovered_device, verify_wifi_runtime, verify_from,
  verify_wifi_token_from_discovered_device, Ends, verify-Ends,
}

abbrev named : Text → WifiDiscoveredDevice
named name = record default_device { host = name }

abbrev two_devices : List WifiDiscoveredDevice
two_devices = named (codes "a.local") ∷ (named (codes "b.local") ∷ [])

abbrev line : Text → Result Text Error
line text = ok text

line_ends : pop_line_ends (codes "2\r\n") ≡ codes "2"
unfolding pop_line_ends
line_ends = refl

-- A number that is none, one out of range, and then the second device.
second_device :
    prompt_wifi_token_generation_device
      (λ s. s)
      two_devices
      (line (codes "x\n") ∷ (line (codes "3\n") ∷ (line (codes "2\n") ∷ [])))
    ≡ some (ok (named (codes "b.local")))
unfolding prompt_wifi_token_generation_device pop_line_ends parse_uint
second_device = refl

no_device : select_wifi_token_generation_device (λ s. s) [] [] ≡ some (err Error.insufficient_data)
unfolding select_wifi_token_generation_device
no_device = refl

-- A network that hides its name: the user types it, behind an empty line.
hidden_network :
    prompt_wifi_ssid
      (λ s. s)
      (wifi default_wifi_network ∷ [])
      (line (codes "1\n") ∷ (line (codes "\n") ∷ (line (codes "home\n") ∷ [])))
    ≡ some (ok (codes "home"))
unfolding prompt_wifi_ssid pick_network prompt_manual_ssid pop_line_ends parse_uint
hidden_network = refl

abbrev key_token : Token
key_token = record {
  host_id = 7;
  key_id = codes "k";
  key_data = map (λ n. 1) (codes "0123456789abcdef0123456789abcdef");
}

abbrev here : WifiDiscoveredDevice
here = named (codes "a.local")

-- Only the third attempt reaches the device.
abbrev third_answers : Target → ℕ → Attempt
third_answers target n =
    if ltb n 3
    then record { connect = err Error.timeout; host = err Error.busy; disconnect = ok tt }
    else record { connect = ok tt; host = ok target.identifier; disconnect = ok tt }

third_attempt : verify_wifi_token_from_discovered_device third_answers key_token here ≡ ok 7
unfolding verify_wifi_token_from_discovered_device verify_from from_discovered_device from_endpoint
    verify_wifi_runtime endpoint trim_end_matches decimal
third_attempt = refl

abbrev there : Target
there = record {
  endpoint = codes "a.local:8788";
  identifier = 7;
  key_id = codes "k";
  key = key_token.key_data;
}

here-there : from_discovered_device key_token here ≡ ok there
unfolding from_discovered_device from_endpoint endpoint trim_end_matches decimal
here-there = refl

verify-Ends_example :
    Ends third_answers key_token here there 1
      (verify_wifi_token_from_discovered_device third_answers key_token here)
verify-Ends_example = verify-Ends third_answers key_token here there here-there
