-- ===== src/Fix.antt =====
-- The FIX 4.4 engine (src/protocols/fix_handler.py): text, messages, the wire format, framing of the
-- byte stream, and the session.
pub mod Text
pub mod Dictionary
pub mod Message
pub mod Wire
pub mod Framing
pub mod Session
pub mod Connection
mod Tests
