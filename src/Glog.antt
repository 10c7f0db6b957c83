-- ===== src/Glog.antt =====
-- pkg/glog: logging.
pub mod Ring
