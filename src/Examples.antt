-- ===== src/Examples.antt =====
-- Runs of the model on concrete inputs, and the theorems applied at them.
mod Doacross
mod Env
mod Iter
mod Barrier
mod Claim
mod Ordered
mod Pool
mod Priority
mod Loop
mod Regions
mod Sections
mod Taskloop
mod Ull
mod WorkShares
