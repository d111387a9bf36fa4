-- ===== src/Text/Examples.antt =====
-- The theorems about building strings at small texts.
