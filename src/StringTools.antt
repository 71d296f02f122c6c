-- ===== src/StringTools.antt =====
-- code/StringTools.cpp: tests, trims and edits of byte strings. A `std::string` is the list of its
-- bytes; a C string is a list whose end stands for the terminating zero, which may come earlier.
pub mod Match
pub mod Trim
pub mod Edit
pub mod Numbers
mod Tests
