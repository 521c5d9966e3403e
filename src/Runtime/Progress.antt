-- ===== src/Runtime/Progress.antt =====
-- Calls that come to an end.
