-- ===== src/Receiver.antt =====
-- src/smokejumper/receiver: from an HTTP delivery to an admitted event in the queue.
pub mod Repository
pub mod Delivery
pub mod Verification
pub mod Normalizers
pub mod Routes
