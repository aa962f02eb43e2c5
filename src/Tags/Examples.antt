-- ===== src/Tags/Examples.antt =====
-- The statements on the tags, at the tags of a small exchange.
