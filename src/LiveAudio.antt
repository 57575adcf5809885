-- ===== src/LiveAudio.antt =====
-- liveaudio_pulse/include/zamt/liveaudio_pulse/LiveAudio.h and liveaudio_pulse/src/LiveAudio.cpp.
pub mod Sizes
pub mod Fragment
pub mod Reading
pub mod Session
pub mod Submission
pub mod Start
pub mod Objects
mod Tests
