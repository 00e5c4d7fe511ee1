-- ===== src/Bridge.antt =====
-- The local Bridge, by which a worker reaches the files of its run: the frames and requests of
-- orch/bridge_local_protocol.py, the sessions of orch/bridge_authorization.py, and the reader of
-- orch/bridge_file_read.py.
pub mod Frame
pub mod Request
pub mod Session
pub mod Read
