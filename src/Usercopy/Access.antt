-- ===== src/Usercopy/Access.antt =====
-- user_range_readable and user_range_writable of src/mm/usercopy.c.
