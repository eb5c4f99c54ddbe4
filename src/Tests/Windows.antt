-- ===== src/Tests/Windows.antt =====
-- Witnesses and runs for the Windows codec.
