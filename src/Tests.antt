-- ===== src/Tests.antt =====
-- Tests of the definitions, and concrete cases in which the conditions of the theorems hold.
mod Values
mod Frame
mod Page
mod Paging
mod Trap
mod Bytes
mod Boot
mod Fdt
mod Tree
mod Whole
mod Init
