-- ===== src/CommandLine/Prompts.antt =====
-- The prompts of src/main.rs. The lines that the user enters, each with its end of line or the error
-- of reading it, are an argument; a loop that is out of lines waits for the next one. `str::trim`,
-- of the standard library, is a parameter. What the prompts print is left out.
use enody_rs.Common.{
  ℕ, ◌-◌, ◌≡◌, refl, ap, Bool, ◌&&◌, ◌||◌, ◌==◌, leb, Text, List, [], ◌∷◌, ◌++◌, length, get_elem?,
  Option, none, some, Result, ok, err, ◌>>=◌, ok_or-some, if◌then◌else◌, All, inl, inr, ◌⊎◌,
}
use enody_rs.Error.{Error}
use enody_rs.Strings.Numbers.{parse_uint}
use enody_rs.Update.Select.{usize_max, nth_from_one, index_panic}
use enody_rs.Message.Network.{Network, wifi}
use enody_rs.Wifi.Device.{WifiDiscoveredDevice}

-- The line feed and the carriage return at the end of a line go.
abbrev pub is_line_end : ℕ → Bool
is_line_end c = c == 10 || c == 13

abbrev pub pop_cons : ℕ → Text → Text
pop_cons c [] = if is_line_end c then [] else c ∷ []
pop_cons c (d ∷ s) = c ∷ (d ∷ s)

unfoldable pub pop_line_ends : Text → Text
pop_line_ends [] = []
pop_line_ends (c ∷ s) = pop_cons c (pop_line_ends s)

abbrev pub prompt_line : Result Text Error → Result Text Error
prompt_line read = read >>= λ input. ok (pop_line_ends input)

abbrev pub Asked : Type 0 → Type 0
Asked A = Option (Result A Error)

-- An empty line is asked again.
abbrev pub answer_manual : Result Text Error → Asked Text → Asked Text
answer_manual (err e) again = some (err e)
answer_manual (ok []) again = again
answer_manual (ok (c ∷ ssid)) again = some (ok (c ∷ ssid))

unfoldable pub prompt_manual_ssid : List (Result Text Error) → Asked Text
prompt_manual_ssid [] = none
prompt_manual_ssid (read ∷ reads) = answer_manual (prompt_line read) (prompt_manual_ssid reads)

-- `(1..=count).contains(&selected)`
abbrev pub in_range : ℕ → Option ℕ → Option ℕ
in_range count none = none
in_range count (some selected) =
    if leb 1 selected && leb selected count then some selected else none

module _ (trim : Text → Text) where
  abbrev pub selected : ℕ → Text → Option ℕ
  selected count input = in_range count (parse_uint usize_max (trim input))

  abbrev pub pick : {A : Type 0} → List A → Option ℕ → Asked A → Asked A
  pick xs none again = again
  pick xs (some n) again = some (nth_from_one xs index_panic n)

  abbrev pub answer_device :
      List WifiDiscoveredDevice
      → Result Text Error
      → Asked WifiDiscoveredDevice
      → Asked WifiDiscoveredDevice
  answer_device devices (err e) again = some (err e)
  answer_device devices (ok input) again = pick devices (selected (length devices) input) again

  unfoldable pub prompt_wifi_token_generation_device :
      List WifiDiscoveredDevice → List (Result Text Error) → Asked WifiDiscoveredDevice
  prompt_wifi_token_generation_device devices [] = none
  prompt_wifi_token_generation_device devices (read ∷ reads) =
      answer_device devices (prompt_line read) (prompt_wifi_token_generation_device devices reads)

  -- No device is an error, and one needs no question.
  unfoldable pub select_wifi_token_generation_device :
      List WifiDiscoveredDevice → List (Result Text Error) → Asked WifiDiscoveredDevice
  select_wifi_token_generation_device [] reads = some (err Error.insufficient_data)
  select_wifi_token_generation_device (device ∷ []) reads = some (ok device)
  select_wifi_token_generation_device (a ∷ (b ∷ devices)) reads =
      prompt_wifi_token_generation_device (a ∷ (b ∷ devices)) reads

  abbrev pub ssid_of : Result Network Error → Asked Text → Asked Text
  ssid_of (err e) manual = some (err e)
  ssid_of (ok (wifi network)) manual = elim network.ssid [
    | some ssid ↦ some (ok ssid)
    | none ↦ manual
  ]

  abbrev pub pick_ssid : List Network → Option ℕ → Asked Text → Asked Text → Asked Text
  pick_ssid networks none again manual = again
  pick_ssid networks (some n) again manual = ssid_of (nth_from_one networks index_panic n) manual

  -- An empty line asks for the name itself.
  abbrev pub answer_trimmed : List Network → Text → Asked Text → Asked Text → Asked Text
  answer_trimmed networks [] again manual = manual
  answer_trimmed networks (c ∷ input) again manual =
      pick_ssid networks (in_range (length networks) (parse_uint usize_max (c ∷ input))) again
        manual

  abbrev pub answer_ssid : List Network → Result Text Error → Asked Text → Asked Text → Asked Text
  answer_ssid networks (err e) again manual = some (err e)
  answer_ssid networks (ok input) again manual = answer_trimmed networks (trim input) again manual

  unfoldable pub pick_network : List Network → List (Result Text Error) → Asked Text
  pick_network networks [] = none
  pick_network networks (read ∷ reads) =
      answer_ssid networks (prompt_line read) (pick_network networks reads)
        (prompt_manual_ssid reads)

  unfoldable pub prompt_wifi_ssid : List Network → List (Result Text Error) → Asked Text
  prompt_wifi_ssid [] reads = prompt_manual_ssid reads
  prompt_wifi_ssid (network ∷ networks) reads = pick_network (network ∷ networks) reads

  -- A line that is read, but is no number of an element.
  abbrev pub Refused : ℕ → Result Text Error → Type 0
  Refused count read =
      (input : Text) × (read ≡ ok input) × (selected count (pop_line_ends input) ≡ none)

  abbrev pub Chosen :
      List WifiDiscoveredDevice → List (Result Text Error) → WifiDiscoveredDevice → Type 0
  Chosen devices reads device =
      (before : List (Result Text Error)) × (input : Text) × (after : List (Result Text Error))
      × (n : ℕ) × (reads ≡ before ++ ok input ∷ after)
      × All (Refused (length devices)) before
      × (selected (length devices) (pop_line_ends input) ≡ some n)
      × (get_elem? devices (n - 1) ≡ some device)

  Chosen-later :
      (devices : List WifiDiscoveredDevice) (read : Result Text Error)
      (reads : List (Result Text Error)) (device : WifiDiscoveredDevice)
      → Refused (length devices) read
      → Chosen devices reads device
      → Chosen devices (read ∷ reads) device
  Chosen-later devices read reads device refused
        (before, input, after, n, same, others, chosen, found) =
      (read ∷ before, input, after, n, ap (λ rs. read ∷ rs) same, (refused, others), chosen, found)

  pick_ok :
      (devices : List WifiDiscoveredDevice) (o : Option ℕ) (again : Asked WifiDiscoveredDevice)
      (device : WifiDiscoveredDevice)
      → pick devices o again ≡ some (ok device)
      → ((o ≡ none) × (again ≡ some (ok device)))
        ⊎ ((n : ℕ) × (o ≡ some n) × (get_elem? devices (n - 1) ≡ some device))
  pick_ok devices none again device h = inl (refl, h)
  pick_ok devices (some n) again device h =
      inr (n, refl, ok_or-some (get_elem? devices (n - 1)) index_panic device cc)

  -- A device that is returned is the one whose number the first line gives that is the number of
  -- one.
  pub prompt_device-Chosen :
      (devices : List WifiDiscoveredDevice) (reads : List (Result Text Error))
      (device : WifiDiscoveredDevice)
      → prompt_wifi_token_generation_device devices reads ≡ some (ok device)
      → Chosen devices reads device
  unfolding prompt_wifi_token_generation_device
  prompt_device-Chosen devices [] device h = absurd cc
  prompt_device-Chosen devices (err e ∷ reads) device h = absurd cc
  prompt_device-Chosen devices (ok input ∷ reads) device h =
      elim (pick_ok devices (selected (length devices) (pop_line_ends input))
        (prompt_wifi_token_generation_device devices reads) device h) [
          | inl (refused, later) ↦
              Chosen-later devices (ok input) reads device (input, refl, refused)
                (prompt_device-Chosen devices reads device later)
          | inr (n, chosen, found) ↦ ([], input, reads, n, refl, tt, chosen, found)
        ]
