-- ===== src/Anomaly.antt =====
-- lanscope/src/anomaly: the detectors and the engine that fans events out to them.
pub mod NewDevice
pub mod PortScan
pub mod VolumeSpike
pub mod Onnx
pub mod Engine
