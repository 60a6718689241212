-- ===== src/Threading.antt =====
-- `RcuUtils` of src/utils/threading.cpp: the deferred callbacks and the thread pool.
pub mod Rcu
pub mod ThreadPool
