-- ===== src/Examples.antt =====
-- Tests of the definitions on small inputs, and the theorems at concrete inputs, in one child for
-- each component.
mod Pool
mod Process
mod Wire
mod Duty
mod Files
mod Figures
mod Panel
mod Shell
mod Sockets
