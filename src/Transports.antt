-- ===== src/Transports.antt =====
-- The build tools for the browser package of an extension (transports/): the WebAssembly assembler with
-- the queue module that it writes, the conformance check of modules, the packaging, and the
-- build of all packages.
mod Digits
pub mod Leb
pub mod Assembler
pub mod Machine
pub mod Host
pub mod Queue
pub mod Ntx
pub mod Verify
pub mod Build
