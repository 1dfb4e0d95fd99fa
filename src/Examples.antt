-- ===== src/Examples.antt =====
-- Concrete machines, and the theorems of the other modules at concrete inputs.
mod Machine
mod Loading
mod Swapping
mod Paging
mod Mapping
mod Filing
mod Calling
mod Sleeping
mod Locking
mod Threading
mod Starting
mod Pushing
mod Waiting
