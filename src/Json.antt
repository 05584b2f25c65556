-- ===== src/Json.antt =====
-- Python's `json` module, as the source uses it: values, the reader `json.loads`, and the writer
-- `json.dumps` for dictionaries of texts.
pub mod Value
pub mod Printer
pub mod Chars
pub mod Strings
pub mod Numbers
pub mod Reader
pub mod RoundTrip
