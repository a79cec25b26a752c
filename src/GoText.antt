-- ===== src/GoText.antt =====
-- The functions of Go's `bytes`, `strings`, `strconv` and `fmt` that the program calls.
pub mod Numbers
pub mod Bytes
pub mod Fold
