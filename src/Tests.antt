-- ===== src/Tests.antt =====
-- The development on concrete stores and clocks.
mod Codec
mod World
mod Servers
mod Safety
mod Schedules
mod Concurrent
mod Marks
mod MultiNamespace
mod Program
mod Swr
mod Revalidation
mod Memory
mod RoundTrip
mod Tiered
mod Entries
mod Stores
mod Cache
