-- ===== src/Master.antt =====
-- The ROS master: aioros/master/.
pub mod ParamCache
pub mod Node
pub mod Registry
pub mod Api
