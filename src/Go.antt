-- ===== src/Go.antt =====
-- What the model uses of the Go language and of its standard library: results with errors and
-- panics, the dynamic values that an `any` holds, decimal text, and the conversions of `reflect`.
pub mod Value
pub mod Result
pub mod Text
pub mod Strings
pub mod Regex
pub mod Utf8
pub mod Convert
