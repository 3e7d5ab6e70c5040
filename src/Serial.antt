-- ===== src/Serial.antt =====
-- The serial module's script parser and engine: pkg/module/serial/step.go and engine.go.
--
-- A byte is a number, and a slice of bytes the list of them.
pub mod Escape
pub mod Script
pub mod Engine
pub mod Module
