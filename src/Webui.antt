-- ===== src/Webui.antt =====
-- webui/api/: the queue of records that wait for the store.
pub mod LogQueue
