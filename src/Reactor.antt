-- ===== src/Reactor.antt =====
-- The reactor of wuduo: channels and the epoller that watches them, the timer queue, and the loop.
pub mod Channel
pub mod Epoller
pub mod Loop
pub mod Timers
