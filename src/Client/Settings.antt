-- ===== src/Client/Settings.antt =====
-- The settings and token calls of `RemoteRuntime` (src/runtime.rs). The third-party encoding of a
-- value is a pair of parameters.
use enody_rs.Common.{Bytes, Text, Option, none, some, Result, err, ok_or}
use enody_rs.Error.{Error}
use enody_rs.Message.Values.{from_secs}
use enody_rs.Message.Network.{try_from_slice}
use enody_rs.Message.Runtime.{
  RuntimeCommand, RuntimeEvent, StoredSetting, missing, public, private, Token, setting_key_max_len,
  setting_value_max_len,
}
use enody_rs.Message.Envelope.{Command, Event}
use enody_rs.Client.{RemoteRuntime, Exec, ◌>>=◌, lift, expected, matches, request, request_until}

abbrev token_of : Event → Option Token
token_of (Event.runtime (RuntimeEvent.token_generated token)) = some token
token_of _ = none

abbrev pub setting_of : Event → Option StoredSetting
setting_of (Event.runtime (RuntimeEvent.setting_get key setting)) = some setting
setting_of _ = none

abbrev pub set_reply : Event → Option (Unit {0})
set_reply (Event.runtime (RuntimeEvent.setting_set key)) = some tt
set_reply _ = none

abbrev pub delete_reply : Event → Option (Unit {0})
delete_reply (Event.runtime (RuntimeEvent.setting_delete key)) = some tt
delete_reply _ = none

module _ {S : Type 0} (remote : RemoteRuntime S) where
  unfoldable pub generate_token : Exec S Token
  generate_token = do
    message ←
        request_until remote (Command.runtime RuntimeCommand.token_generate) none (from_secs 10)
          (λ message. matches (token_of message.event))
    lift (expected (token_of message.event))

  unfoldable pub setting_delete : Text → Exec S (Unit {0})
  setting_delete key = do
    name ← lift (ok_or (try_from_slice setting_key_max_len key) Error.argument)
    message ← request remote (Command.runtime (RuntimeCommand.setting_delete name)) none
    lift (expected (delete_reply message.event))

  -- `postcard::from_bytes` and `postcard::to_allocvec` for the type of the value.
  module _ {Value : Type 0} (from_bytes : Bytes → Option Value)
      (to_allocvec : Value → Option Bytes) where
    abbrev pub stored_value : Option StoredSetting → Result Value Error
    stored_value none = err Error.unexpected_response
    stored_value (some missing) = err Error.insufficient_data
    stored_value (some private) = err Error.permission
    stored_value (some (public bytes)) = ok_or (from_bytes bytes) Error.serialization

    unfoldable pub setting_get : Text → Exec S Value
    setting_get key = do
      name ← lift (ok_or (try_from_slice setting_key_max_len key) Error.argument)
      message ← request remote (Command.runtime (RuntimeCommand.setting_get name)) none
      lift (stored_value (setting_of message.event))

    unfoldable pub setting_set : Text → Value → Exec S (Unit {0})
    setting_set key value = do
      name ← lift (ok_or (try_from_slice setting_key_max_len key) Error.argument)
      bytes ← lift (ok_or (to_allocvec value) Error.serialization)
      setting_value ← lift (ok_or (try_from_slice setting_value_max_len bytes) Error.serialization)
      message ←
          request remote (Command.runtime (RuntimeCommand.setting_set name setting_value)) none
      lift (expected (set_reply message.event))
