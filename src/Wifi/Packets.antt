-- ===== src/Wifi/Packets.antt =====
-- A run of src/wifi.rs on the records of an mDNS packet.
use enody_rs.Common.{
  ◌≡◌, refl, true, false, codes, text_eq, Text, List, [], ◌∷◌, Option, some, ok, length,
}
use enody_rs.Message.Topology.{Identifier}
use enody_rs.Strings.Case.{eq_ignore_ascii_case}
use enody_rs.Strings.Parts.{ends_with, split_once, trim_end_matches}
use enody_rs.Strings.Utf8.{is_utf8}
use enody_rs.Wifi.Device.{default_device}
use enody_rs.Wifi.Mdns.{
  Record, a_record, ptr, srv, txt, collect_mdns_devices, collect_records, parse_txt_record,
  parse_txt_from, get, insert, dns_name_eq, add_names, instance_names_of, merge_all,
}

-- An identifier is the count of its characters.
abbrev counted : Text → Option Identifier
counted text = some (length text)

abbrev lamp_name : Text
lamp_name = codes "EP01 a._enody._tcp.local"

abbrev packet : List Record
packet =
    (record { owner = codes "_enody._tcp.local"; is_service = true; content = ptr lamp_name })
    ∷ (record { owner = lamp_name; is_service = false; content = srv (codes "a.local") 9000 })
    ∷ (record {
      owner = lamp_name;
      is_service = false;
      content = txt (codes "proto=enody-v1" ∷ codes "id=12345" ∷ codes "fw=1.2.0" ∷ []);
    })
    ∷ (record {
      owner = codes "a.local";
      is_service = false;
      content = a_record (record { a = 10; b = 0; c = 0; d = 7 });
    })
    ∷ []

one_device : collect_mdns_devices counted (ok packet) [] ≡ (
  (
    codes "EP01 a._enody._tcp.local.",
    record default_device {
      instance_name = codes "EP01 a._enody._tcp.local.";
      host = codes "a.local";
      address = some (record { a = 10; b = 0; c = 0; d = 7 });
      host_id = some 5;
      firmware_version = some (codes "1.2.0");
      port = some 9000;
      protocol = some (codes "enody-v1");
    },
  )
      ∷ [],
  ok tt,
)
unfolding collect_mdns_devices collect_records parse_txt_record parse_txt_from get insert
    dns_name_eq add_names instance_names_of merge_all is_utf8 split_once ends_with trim_end_matches
    text_eq eq_ignore_ascii_case
one_device = refl
