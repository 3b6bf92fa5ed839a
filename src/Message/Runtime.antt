-- ===== src/Message/Runtime.antt =====
-- Settings, tokens, logs, and the commands and events of a runtime (src/message.rs).
use enody_rs.Common.{ℕ, Bytes, Text}
use enody_rs.Message.Topology.{Identifier, HostInfo, RuntimeInfo, EnvironmentInfo}

abbrev pub setting_key_max_len : ℕ
setting_key_max_len = 64

abbrev pub setting_value_max_len : ℕ
setting_value_max_len = 128

abbrev pub token_string_max_len : ℕ
token_string_max_len = 64

abbrev pub token_data_max_len : ℕ
token_data_max_len = 32

pub data StoredSetting : Type 0 where
  missing : StoredSetting
  public : Bytes → StoredSetting
  private : StoredSetting

pub record Token : Type 0 where
  pub host_id : Identifier
  pub key_id : Text
  pub key_data : Bytes

pub data LogLevel : Type 0 where
  error warn info debug trace : LogLevel

pub record LogEvent : Type 0 where
  pub level : LogLevel
  pub output : Text

pub data RuntimeCommand : Type 0 where
  info : RuntimeCommand
  host : RuntimeCommand
  environment_count : RuntimeCommand
  environment_info : ℕ → RuntimeCommand
  setting_get : Text → RuntimeCommand
  setting_set : Text → Bytes → RuntimeCommand
  setting_delete : Text → RuntimeCommand
  setting_reset : RuntimeCommand
  token_generate : RuntimeCommand
  token_revoke : Text → RuntimeCommand

pub data RuntimeEvent : Type 0 where
  info : RuntimeInfo → RuntimeEvent
  log : LogEvent → RuntimeEvent
  host : HostInfo → RuntimeEvent
  environment_count : ℕ → RuntimeEvent
  environment_info : EnvironmentInfo → RuntimeEvent
  setting_get : Text → StoredSetting → RuntimeEvent
  setting_set : Text → RuntimeEvent
  setting_delete : Text → RuntimeEvent
  setting_reset : RuntimeEvent
  token_generate_start : RuntimeEvent
  token_generate_approval : Text → RuntimeEvent
  token_generated : Token → RuntimeEvent
  token_revoked : Text → RuntimeEvent
