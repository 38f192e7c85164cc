-- ===== src/Notifications.antt =====
-- The notification service: models/notification.py and apps/api/app/notifications/.
pub mod Conditions
pub mod Delivery
