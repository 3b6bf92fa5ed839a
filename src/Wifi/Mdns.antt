-- ===== src/Wifi/Mdns.antt =====
-- What src/wifi.rs makes of an mDNS packet: the devices that its records tell of. The packet is taken
-- apart by a third-party library: a packet is its records, or an error. A hash map is a list of keys
-- with values; its order, which the code leaves open, is that of insertion.
use enody_rs.Common.{
  ℕ, ◌-◌, ◌^◌, Bool, true, false, not, ◌&&◌, Bytes, Text, text_eq, codes, List, [], ◌∷◌, ◌++◌, map,
  any, Option, none, some, Result, ok, err, if◌then◌else◌, ◌≡◌, ◌↔◌, sym, ap, ◌∙◌, text_eq_sound,
  text_eq_refl,
}
use enody_rs.Error.{Error}
use enody_rs.Message.Topology.{Identifier}
use enody_rs.Strings.Case.{to_ascii_lowercase, eq_ignore_ascii_case}
use enody_rs.Strings.Numbers.{parse_uint}
use enody_rs.Strings.Parts.{ends_with, split_once, trim_end_matches}
use enody_rs.Strings.Utf8.{is_utf8}
use enody_rs.Wifi.Device.{Ipv4Addr, WifiDiscoveredDevice, default_device}

module _ {A : Type 0} where
  unfoldable pub get : List (Text × A) → Text → Option A
  get [] key = none
  get ((k, a) ∷ entries) key = if text_eq k key then some a else get entries key

  unfoldable pub insert : List (Text × A) → Text → A → List (Text × A)
  insert [] key a = (key, a) ∷ []
  insert ((k, b) ∷ entries) key a =
      let rest = insert entries key a in if text_eq k key then (k, a) ∷ entries else (k, b) ∷ rest

  abbrev pub keys : List (Text × A) → List Text
  keys entries = map (λ e. e.0) entries

-- A record's owner, as the library prints it, whether it names the service, and its data.
pub data RecordData : Type 0 where
  a_record : Ipv4Addr → RecordData
  ptr : Text → RecordData
  srv : Text → ℕ → RecordData
  txt : List Bytes → RecordData
  other : RecordData

pub record Record : Type 0 where
  pub owner : Text
  pub is_service : Bool
  pub content : RecordData

pub record MdnsRecords : Type 0 where
  pub ptr_instances : List Text
  pub srv_records : List (Text × (Text × ℕ))
  pub txt_records : List (Text × List (Text × Text))
  pub a_records : List (Text × Ipv4Addr)

abbrev pub no_records : MdnsRecords
no_records = record { ptr_instances = []; srv_records = []; txt_records = []; a_records = [] }

abbrev pub dns_name_to_string : Text → Text
dns_name_to_string name = if ends_with (codes ".") name then name else name ++ codes "."

-- Items that are no UTF-8 or have no `=` are skipped, and the last value of a key counts.
abbrev pub add_value : List (Text × Text) → Option (Text × Text) → List (Text × Text)
add_value values none = values
add_value values (some (key, value)) = insert values key value

unfoldable pub parse_txt_from : List (Text × Text) → List Bytes → List (Text × Text)
parse_txt_from values [] = values
parse_txt_from values (item ∷ items) =
    parse_txt_from (add_value values (if is_utf8 item then split_once b'=' item else none)) items

unfoldable pub parse_txt_record : List Bytes → List (Text × Text)
parse_txt_record items = parse_txt_from [] items

abbrev pub collect_data : MdnsRecords → Text → Bool → RecordData → MdnsRecords
collect_data records name is_service (a_record address) = record records {
  a_records = insert records.a_records name address;
}
collect_data records name true (ptr instance_name) = record records {
  ptr_instances = records.ptr_instances ++ dns_name_to_string instance_name ∷ [];
}
collect_data records name false (ptr instance_name) = records
collect_data records name is_service (srv target port) = record records {
  srv_records = insert records.srv_records name (dns_name_to_string target, port);
}
collect_data records name is_service (txt items) = record records {
  txt_records = insert records.txt_records name (parse_txt_record items);
}
collect_data records name is_service other = records

abbrev pub collect_mdns_record : MdnsRecords → Record → MdnsRecords
collect_mdns_record records r =
    collect_data records (dns_name_to_string r.owner) r.is_service r.content

unfoldable pub collect_records : MdnsRecords → List Record → MdnsRecords
collect_records records [] = records
collect_records records (r ∷ rs) = collect_records (collect_mdns_record records r) rs

unfoldable pub dns_name_eq : Text → Text → Bool
dns_name_eq left right =
    eq_ignore_ascii_case (trim_end_matches b'.' left) (trim_end_matches b'.' right)

abbrev pub wifi_service_suffix : Text
wifi_service_suffix = codes "._enody._tcp.local"

abbrev pub is_service_name : Text → Bool
is_service_name name =
    ends_with wifi_service_suffix (to_ascii_lowercase (trim_end_matches b'.' name))

-- Names of the service that no pointer told of are put behind.
unfoldable pub add_names : List Text → List Text → List Text
add_names instance_names [] = instance_names
add_names instance_names (name ∷ names) =
    add_names
      (if is_service_name name && not (any (λ existing. dns_name_eq existing name) instance_names)
        then instance_names ++ name ∷ []
        else instance_names)
      names

unfoldable pub instance_names_of : MdnsRecords → List Text
instance_names_of records =
    add_names records.ptr_instances (keys records.srv_records ++ keys records.txt_records)

abbrev pub or_instance : Text → Option WifiDiscoveredDevice → WifiDiscoveredDevice
or_instance name (some device) = device
or_instance name none = record default_device { instance_name = name }

abbrev pub with_srv :
    List (Text × Ipv4Addr) → Option (Text × ℕ) → WifiDiscoveredDevice → WifiDiscoveredDevice
with_srv a_records none device = device
with_srv a_records (some (host, port)) device = record device {
  host = trim_end_matches b'.' host;
  port = some port;
  address = get a_records host;
}

abbrev pub and_then : {A : Type 0} → Option Text → (Text → Option A) → Option A
and_then none parse = none
and_then (some text) parse = parse text

abbrev pub or_else : {A : Type 0} → Option A → Option A → Option A
or_else none second = second
or_else (some a) second = some a

abbrev pub parse_u8 : Text → Option ℕ
parse_u8 text = parse_uint (2 ^ 8 - 1) text

abbrev pub parse_u16 : Text → Option ℕ
parse_u16 text = parse_uint (2 ^ 16 - 1) text

module _ (parse_uuid : Text → Option Identifier) where
  abbrev pub with_txt : Option (List (Text × Text)) → WifiDiscoveredDevice → WifiDiscoveredDevice
  with_txt none device = device
  with_txt (some values) device = record device {
    model = get values (codes "model");
    api_version = and_then (get values (codes "api")) parse_u8;
    host_id = and_then (get values (codes "id")) parse_uuid;
    firmware_version = or_else (get values (codes "firmware")) (get values (codes "fw"));
    http_port = and_then (get values (codes "http")) parse_u16;
    port = or_else (and_then (get values (codes "port")) parse_u16) device.port;
    protocol = get values (codes "proto");
    auth = get values (codes "auth");
  }

  abbrev pub entry_of :
      MdnsRecords → List (Text × WifiDiscoveredDevice) → Text → WifiDiscoveredDevice
  entry_of records devices name = with_txt (get records.txt_records name) (
      with_srv records.a_records (get records.srv_records name)
        (or_instance name (get devices name)))

  unfoldable pub merge_all :
      MdnsRecords
      → List (Text × WifiDiscoveredDevice)
      → List Text
      → List (Text × WifiDiscoveredDevice)
  merge_all records devices [] = devices
  merge_all records devices (name ∷ names) =
      merge_all records (insert devices name (entry_of records devices name)) names

  abbrev pub with_address : Option Ipv4Addr → WifiDiscoveredDevice → WifiDiscoveredDevice
  with_address none device = device
  with_address (some address) device = record device { address = some address }

  abbrev pub readdress : MdnsRecords → Text × WifiDiscoveredDevice → Text × WifiDiscoveredDevice
  readdress records (name, device) = (
    name,
    with_address (get records.a_records (trim_end_matches b'.' device.host ++ codes ".")) device,
  )

  abbrev pub merge :
      MdnsRecords → List (Text × WifiDiscoveredDevice) → List (Text × WifiDiscoveredDevice)
  merge records devices =
      map (readdress records) (merge_all records devices (instance_names_of records))

  -- A packet that cannot be read leaves the devices as they are.
  unfoldable pub collect_mdns_devices :
      Result (List Record) Error
      → List (Text × WifiDiscoveredDevice)
      → List (Text × WifiDiscoveredDevice) × Result (Unit {0}) Error
  collect_mdns_devices (err e) devices = (devices, err e)
  collect_mdns_devices (ok records) devices =
      (merge (collect_records no_records records) devices, ok tt)

-- Two names are equal for DNS where they are the same text without dots at the end and without case.
pub dns_name_eq_iff :
    (left right : Text)
    → (dns_name_eq left right ≡ true) ↔ (
        to_ascii_lowercase (trim_end_matches b'.' left)
        ≡ to_ascii_lowercase (trim_end_matches b'.' right))
unfolding dns_name_eq eq_ignore_ascii_case
dns_name_eq_iff left right = (
  λ h.
      text_eq_sound (to_ascii_lowercase (trim_end_matches b'.' left))
        (to_ascii_lowercase (trim_end_matches b'.' right)) h,
  λ same.
      ap (text_eq (to_ascii_lowercase (trim_end_matches b'.' left))) (sym same)
      ∙ text_eq_refl (to_ascii_lowercase (trim_end_matches b'.' left)),
)
