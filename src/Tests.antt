-- ===== src/Tests.antt =====
-- Concrete inputs for the theorems, and concrete runs of the definitions.
mod Engine
mod Locks
mod Hash
mod Scan
mod Query
mod Results
mod Compare
mod Ttree
mod Values
mod Threads
mod MemoryDb
mod Learning
mod Database
mod Serving
