-- ===== src/PushThrottle/Tests.antt =====
-- Two connects, one of them long ago.
