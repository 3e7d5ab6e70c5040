-- ===== src/Tests.antt =====
-- Runs of the definitions at concrete data, and the theorems at inputs that meet their hypotheses.
mod Locker
mod Dut
mod Serial
mod Agent
mod Versions
mod Server
mod Session
mod Relay
mod Chanio
mod Client
mod Gpio
mod Lifecycle
mod Files
