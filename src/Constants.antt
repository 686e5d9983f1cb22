-- ===== src/Constants.antt =====
-- The definitions of constants: which command declares a constant, which may refer to it, and which
-- may delete it. app/elaborations/services/constants/command_constant_definition_registry.py
pub mod Tables
pub mod Config
pub mod Plan
pub mod Suite
pub mod Mock
mod Tests
