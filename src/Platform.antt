-- ===== src/Platform.antt =====
-- What the program takes from outside the repository. Unicode case tables, regular expressions,
-- the text forms of addresses and networks are parameters; the string functions of Go's standard
-- library that the program calls are defined over them, rune by rune.
mod Strings
unfoldable pub use Strings.*
