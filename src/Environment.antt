-- ===== src/Environment.antt =====
-- The events of a discovery environment, of src/environment.rs.
pub data EnvironmentRuntimeEvent (Runtime : Type 0) : Type 0 where
  arrived : Runtime → EnvironmentRuntimeEvent Runtime
  left : Runtime → EnvironmentRuntimeEvent Runtime
