-- ===== src/Usb/SerialPort.antt =====
-- The connection of src/usb/serialport.rs: payloads are queued by `send_payload` and written by the
-- loop that also reads. The port's answers are arguments.
use enody_rs.Common.{
  Bytes, Text, Bool, true, false, codes, List, [], ◌∷◌, ◌++◌, Option, none, some, Result, ok, err,
}
use enody_rs.Error.{Error}
use enody_rs.Framing.Codec.{buffer_try_from}
use enody_rs.Usb.Reception.{Reception, on_bytes, opened}

pub data Read : Type 0 where
  bytes : Bytes → Read
  timed_out : Read
  failed : Text → Read

-- What the port answers in a round: for `write_all` and `flush` of a payload behind the bytes that
-- were written before, the text of an error; and what `read` gives.
pub record Port : Type 0 where
  pub write_all : Bytes → Bytes → Option Text
  pub flush : Bytes → Bytes → Option Text
  pub read : Read

-- The payloads that are queued, the bytes that were written, the reading side, and what the task
-- returned once it has ended.
pub record SerialPort (M : Type 0) : Type 0 where
  pub serial_rx : List Bytes
  pub written : Bytes
  pub reading : Reception M
  pub ended : Option (Result (Unit {0}) Error)

-- The bytes written, the payloads left, and the result where the task returns.
abbrev pub Drained : Type 0
Drained = Bytes × List Bytes × Option (Result (Unit {0}) Error)

abbrev pub write_payload :
    Option Text → Option Text → Bytes → Bytes → List Bytes → Drained → Drained
write_payload (some reason) flushed written payload rest later =
    (written, rest, some (err (Error.usb reason)))
write_payload none (some reason) written payload rest later =
    (written ++ payload, rest, some (err (Error.usb reason)))
write_payload none none written payload rest later = later

-- The inner loop over `serial_rx`.
unfoldable pub drain : Port → Bytes → List Bytes → Drained
drain port written [] = (written, [], none)
drain port written (payload ∷ rest) =
    write_payload (port.write_all written payload) (port.flush written payload) written payload rest
      (drain port (written ++ payload) rest)

abbrev pub shut_down : Bool → Option (Result (Unit {0}) Error)
shut_down true = some (ok tt)
shut_down false = none

module _ {M : Type 0} (from_bytes : Bytes → Option M) (to_allocvec : M → Option Bytes) where
  abbrev pub read_port : SerialPort M → Read → Bool → SerialPort M
  read_port serial (bytes read) shutdown = record serial {
    reading = on_bytes from_bytes serial.reading read;
    ended = shut_down shutdown;
  }
  read_port serial timed_out shutdown = record serial { ended = shut_down shutdown }
  read_port serial (failed reason) shutdown = record serial {
    ended = some (err (Error.usb reason));
  }

  abbrev pub after_drain : SerialPort M → Drained → Port → Bool → SerialPort M
  after_drain serial (written, rest, some outcome) port shutdown = record serial {
    written = written;
    serial_rx = rest;
    ended = some outcome;
  }
  after_drain serial (written, rest, none) port shutdown =
      read_port (record serial { written = written; serial_rx = rest }) port.read shutdown

  -- A round of the loop of `message_rx_closure`.
  abbrev pub round : SerialPort M → Port → Bool → SerialPort M
  round serial port shutdown = elim serial.ended [
    | some _ ↦ serial
    | none ↦ after_drain serial (drain port serial.written serial.serial_rx) port shutdown
  ]

  -- `send_payload`: the sender finds its receiver gone once the task has ended.
  abbrev pub send_payload : SerialPort M → Bytes → SerialPort M × Result (Unit {0}) Error
  send_payload serial payload = elim serial.ended [
    | some _ ↦ (serial, err (Error.usb (codes "sending on a closed channel")))
    | none ↦ (record serial { serial_rx = serial.serial_rx ++ payload ∷ [] }, ok tt)
  ]

  abbrev pub send_buffer :
      SerialPort M → Result Bytes Error → SerialPort M × Result (Unit {0}) Error
  send_buffer serial (err e) = (serial, err Error.serialization)
  send_buffer serial (ok payload) = send_payload serial payload

  -- `send_message` in a connection.
  abbrev pub send_message : SerialPort M → M → SerialPort M × Result (Unit {0}) Error
  send_message serial message = send_buffer serial (buffer_try_from to_allocvec from_bytes message)

  -- `open`
  abbrev pub open_connection : SerialPort M
  open_connection = record { serial_rx = []; written = []; reading = opened; ended = none }
