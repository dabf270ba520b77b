-- ===== src/Tests.antt =====
-- The development at concrete inputs: runs of the definitions, and the theorems applied.
mod Carried
mod Codec
mod FieldMap
mod Floats
mod Link
mod Nested
mod Node
mod Packet
mod Stamps
mod Toy
mod Upload
