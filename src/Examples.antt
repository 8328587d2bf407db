-- ===== src/Examples.antt =====
-- The theorems at concrete inputs: one module per part of the program, and a codec of mock entries
-- that stands for `serde_json` in them.
mod Codec
mod Entry
mod Uris
mod Tenants
mod Libraries
mod Overlaps
mod Sequences
mod Statecharts
mod Resources
mod Chaos
mod Paths
mod Swaps
mod Proxies
mod Servers
mod Handlers
mod Stores
mod Draws
mod JsonCodec
mod Recoveries
