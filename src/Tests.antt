-- ===== src/Tests.antt =====
-- Runs of the models on concrete inputs.
mod Transport
