-- ===== src/Tests.antt =====
-- The library at concrete inputs: small runs of each part.
mod Store
mod Disk
mod Requests
mod Boot
mod Media
mod Access
mod Declarations
mod Saves
mod Pictures
mod Numbers
