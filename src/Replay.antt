-- ===== src/Replay.antt =====
-- src/ecosphere/replay: the replay of recorded decisions (engine.py) and its packages (package.py).
pub mod Engine
pub mod Package
