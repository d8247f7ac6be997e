-- ===== src/Examples/Words.antt =====
-- The theorems on fields at concrete words.
