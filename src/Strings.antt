-- ===== src/Strings.antt =====
-- src/util/bsd_string.c and src/util/string_ops.c. A string that is only read is the list of the
-- characters before its terminator, so `*str == '\0'` is the test for the empty list. Memory that is
-- written is the list of all its bytes.
pub mod Bsd
pub mod Ops
