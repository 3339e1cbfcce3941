-- ===== src/Text.antt =====
-- The parts of Go's strings, bufio and strconv packages that the bench reads its inputs with, over
-- the bytes of a string. Invalid UTF-8 is read as Go reads it: such a byte is no white space.
pub mod Words
pub mod Lines
pub mod Number
pub mod Flag
pub mod Cut
pub mod Path
pub mod Render
pub mod Format
