-- ===== src/Gemini.antt =====
-- ai/schema and ai/providers/gemini: the schema that the answer must have, and the prompt.
pub mod Schema
pub mod Definitions
pub mod Service
pub mod WellFormed
pub mod Prompt
pub mod Provider
