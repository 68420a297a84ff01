-- ===== src/Rest/Tests.antt =====
-- The theorem on statuses at a duplicate user name.
