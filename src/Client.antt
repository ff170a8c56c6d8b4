-- ===== src/Client.antt =====
-- runner/client.py: a round of chat as a stream of server-sent events.
pub mod Events
pub mod Messages
pub mod Turn
pub mod Keys
pub mod Send
