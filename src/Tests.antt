-- ===== src/Tests.antt =====
-- Runs of the program's routines, and the properties at concrete inputs.
mod Json
mod Qoi
mod Window
mod Http
mod Raster
mod Feed
mod Cards
mod Main
mod Crt
mod Https
mod Font
mod Model
mod Session
mod Client
mod Files
mod Boot
mod Bringup
mod Platform
