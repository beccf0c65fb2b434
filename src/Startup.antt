-- ===== src/Startup.antt =====
-- src/main.c, and what it calls before its loop: src/config.c, tcp_init, queue_init and the sx126x_init_
-- functions of sx126x/sx126x.c.
pub mod Host
pub mod Lines
pub mod Main
pub mod Released
pub mod Ready
