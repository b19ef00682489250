-- ===== src/Bitops/Laws.antt =====
-- The bits of a register that the functions of bitops.c reach, 63 for each of its words, and those
-- that they do not.
