-- ===== src/Hsms/Overrun.antt =====
-- What recv_hsmsI() of source/recv_hsms.c makes of a message whose last bytes arrive together with
-- the bytes of the next one.
