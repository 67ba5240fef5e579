-- ===== src/Tls.antt =====
-- tls_proxy.py: the local TCP to TLS proxies, their circuit breaker, the forwarding of bytes, and the
-- RTSP requests that keep a session alive and warm the encoder up.
pub mod Breaker
pub mod Registry
pub mod Transport
pub mod Rtsp
pub mod Handling
