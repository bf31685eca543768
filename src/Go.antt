-- ===== src/Go.antt =====
-- What the program uses of Go's standard library, as functions on texts: `sort`, `strconv`,
-- `strings`, `path`, `encoding/hex` and `crypto/sha256`.
pub mod Sort
pub mod Strconv
pub mod Strings
pub mod FilePath
pub mod Hex
pub mod Sha256
