-- ===== src/Gpu.antt =====
-- The GPU telemetry library of libs/gpu_telemetry: the snapshot, the loaders of the driver's two
-- libraries, the discovery of sensors, the rate-limited probe, the reader, and the C interface.
pub mod Snapshot
pub mod Calls
pub mod Driver
pub mod NvmlLoader
pub mod NvapiLoader
pub mod Thermals
pub mod Fans
pub mod Contexts
pub mod Probe
pub mod Samples
pub mod Discovery
pub mod Reader
pub mod Copies
pub mod Capi
