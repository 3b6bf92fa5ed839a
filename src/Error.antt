-- ===== src/Error.antt =====
-- The error type of src/lib.rs. A `String` payload is the text's bytes.
use enody_rs.Common.{Text}

pub data Error : Type 0 where
  unknown : Error
  debug : Text → Error
  unsupported : Error
  usb : Text → Error
  serialization : Error
  busy : Error
  insufficient_data : Error
  unexpected_response : Error
  timeout : Error
  argument : Error
  permission : Error
  canceled : Error
