-- ===== src/Go.antt =====
-- What the program uses of Go: results and errors, the state of the world, text and numbers.
pub mod Memory
pub mod Results
pub mod Retry
pub mod Numbers
pub mod Text
