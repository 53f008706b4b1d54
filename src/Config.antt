-- ===== src/Config.antt =====
-- src/config.h and src/config.cc: settings, their conversions from and to text, and what is read
-- from a YAML document.
pub mod Yaml
pub mod Cast
pub mod Var
pub mod Tree
pub mod Sample
mod Tests
