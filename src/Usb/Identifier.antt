-- ===== src/Usb/Identifier.antt =====
-- The products of src/usb/mod.rs that the library supports, and the events of its backends.
use enody_rs.Common.{ℕ, Bool, ◌&&◌, ◌==◌, Text, codes, List, [], ◌∷◌, any}

pub record UsbIdentifier : Type 0 where
  pub name : Text
  pub vendor_id : ℕ
  pub product_id : ℕ

abbrev pub identifier_eq : UsbIdentifier → UsbIdentifier → Bool
identifier_eq a b = a.vendor_id == b.vendor_id && a.product_id == b.product_id

abbrev pub ep01 : UsbIdentifier
ep01 = record { name = codes "EP01"; vendor_id = 0x303A; product_id = 0x1001 }

abbrev pub all_identifiers : List UsbIdentifier
all_identifiers = ep01 ∷ []

abbrev pub is_supported : ℕ → ℕ → Bool
is_supported vendor_id product_id =
    any (λ identifier. identifier.vendor_id == vendor_id && identifier.product_id == product_id)
      all_identifiers

pub data UsbDeviceEvent (D : Type 0) : Type 0 where
  connected : D → UsbDeviceEvent D
  disconnected : D → UsbDeviceEvent D
