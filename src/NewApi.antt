-- ===== src/NewApi.antt =====
-- runner/newapi.py: the logs of the model gateway.
pub mod Fetch
pub mod Match
pub mod Turn
