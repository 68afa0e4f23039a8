-- ===== src/Capabilities.antt =====
-- app/capabilities: the parts of the capabilities that are the program's own code.
pub mod Chunks
pub mod Retriever
