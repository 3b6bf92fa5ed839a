-- ===== src/Message/Topology.antt =====
-- Metadata records of src/message.rs and the samples of src/spectral.rs. An `Identifier` is a
-- UUID, its 128 bits as a number.
use enody_rs.Common.{ℕ, List}
use enody_rs.Measurement.{Measurement}
use enody_rs.Version.{Version, default}

abbrev pub Identifier : Type 0
Identifier = ℕ

-- `Identifier::nil()`, which is also its default.
abbrev pub nil : Identifier
nil = 0

pub record HostInfo : Type 0 where
  pub version : Version
  pub identifier : Identifier

abbrev pub default_host_info : HostInfo
default_host_info = record { version = default; identifier = nil }

pub record FixtureInfo : Type 0 where
  pub identifier : Identifier

pub record SourceInfo : Type 0 where
  pub identifier : Identifier

pub record EmitterInfo : Type 0 where
  pub identifier : Identifier

pub record EmitterState : Type 0 where
  pub flux : Measurement

pub record SpectralDataInfo : Type 0 where
  pub identifier : Identifier

pub record RuntimeInfo : Type 0 where
  pub version : Version
  pub identifier : Identifier

pub record EnvironmentInfo : Type 0 where
  pub identifier : Identifier

pub record SpectralSample : Type 0 where
  pub wavelength : Measurement
  pub measurement : Measurement

-- The capacity of a `SpectralData` is its const parameter; by default 401.
abbrev pub default_sample_count : ℕ
default_sample_count = 401

pub record SpectralData : Type 0 where
  pub samples : List SpectralSample
