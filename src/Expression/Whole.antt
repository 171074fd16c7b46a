-- ===== src/Expression/Whole.antt =====
-- expression() on a well-formed expression, from the tokens of the program to the value.
