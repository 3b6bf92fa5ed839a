-- ===== src/Usb/Connection.antt =====
-- The connection that `RusbDevice` of src/usb/rusb.rs and `SerialPortDevice` of
-- src/usb/serialport.rs keep. What opening and closing it gives is an argument.
use enody_rs.Common.{
  Bool, true, false, codes, Option, none, some, Result, ok, err, ◌≡◌, refl, Option-cases, inl, inr,
}
use enody_rs.Error.{Error}

abbrev pub no_connection : Error
no_connection = Error.usb (codes "No active connection")

abbrev pub inexistent_connection : Error
inexistent_connection = Error.usb (codes "Attemped to disconnect from inexistent connection")

abbrev pub recv_failed : Error
recv_failed = Error.usb (codes "failed to recv message")

-- A connection, and the receiver of its messages.
pub record Device (C R : Type 0) : Type 0 where
  pub connection : Option C
  pub message_rx : Option R

module _ {C R : Type 0} where
  abbrev pub closed : Device C R
  closed = record { connection = none; message_rx = none }

  abbrev pub is_connected : Device C R → Bool
  is_connected device = elim device.connection [ some _ ↦ true | none ↦ false ]

  abbrev pub connect_with : Device C R → Result (C × R) Error → Device C R × Result (Unit {0}) Error
  connect_with device (err e) = (device, err e)
  connect_with device (ok (connection, message_rx)) =
      (record { connection = some connection; message_rx = some message_rx }, ok tt)

  -- A device that is connected is left alone.
  abbrev pub connect : Device C R → Result (C × R) Error → Device C R × Result (Unit {0}) Error
  connect device opened = elim device.connection [
    | some _ ↦ (device, ok tt)
    | none ↦ connect_with device opened
  ]

  abbrev pub disconnect_with :
      Device C R → Result (Unit {0}) Error → Device C R × Result (Unit {0}) Error
  disconnect_with device (err e) = (record device { connection = none }, err e)
  disconnect_with device (ok _) = (closed, ok tt)

  abbrev pub disconnect :
      Device C R → (C → Result (Unit {0}) Error) → Device C R × Result (Unit {0}) Error
  disconnect device close = elim device.connection [
    | none ↦ (device, err inexistent_connection)
    | some connection ↦ disconnect_with device (close connection)
  ]

  -- `recv_message` of `RusbDevice` takes the receiver out while it waits.
  abbrev pub begin_recv : Device C R → Device C R × Result R Error
  begin_recv device = elim device.message_rx [
    | none ↦ (device, err no_connection)
    | some rx ↦ (record device { message_rx = none }, ok rx)
  ]

  -- The receiver is put back, and a channel that was closed is an error.
  abbrev pub end_recv : {M : Type 0} → Device C R → R → Option M → Device C R × Result M Error
  end_recv device rx received = (
    record device { message_rx = some rx },
    elim received [ some message ↦ ok message | none ↦ err recv_failed ],
  )

  -- Whatever connecting, disconnecting and receiving to its end do, a device that is connected keeps
  -- a receiver.
  abbrev pub Receives : Device C R → Type 0
  Receives device = elim device.connection [
    | none ↦ Unit
    | some _ ↦ (rx : R) × (device.message_rx ≡ some rx)
  ]

  abbrev holding : Option C → Option R → Device C R
  holding connection rx = record { connection = connection; message_rx = rx }

  connect_holding :
      (connection : Option C) (rx : Option R) (opened : Result (C × R) Error)
      → Receives (holding connection rx)
      → Receives (connect (holding connection rx) opened).0
  connect_holding (some c) rx opened h = h
  connect_holding none rx (err e) h = h
  connect_holding none rx (ok (c, new_rx)) h = (new_rx, refl)

  pub connect-Receives :
      (device : Device C R) (opened : Result (C × R) Error)
      → Receives device
      → Receives (connect device opened).0
  connect-Receives device opened h = connect_holding device.connection device.message_rx opened h

  -- Closed devices have no connection, whether closing fails or not.
  pub disconnect-closes :
      (device : Device C R) (close : C → Result (Unit {0}) Error)
      → is_connected (disconnect device close).0 ≡ false
  disconnect-closes device close = elim (Option-cases device.connection) [
    | inl e ↦ rw e refl
    | inr (c, e) ↦ rw e (gone (close c))
  ]
    where
      gone : (r : Result (Unit {0}) Error) → is_connected (disconnect_with device r).0 ≡ false
      gone (ok _) = refl
      gone (err e) = refl
