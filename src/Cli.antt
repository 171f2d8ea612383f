-- ===== src/Cli.antt =====
-- nameko/cli: the environment variables in a configuration file (main.py), and the service runner at
-- the command line (run.py).
pub mod EnvVar
pub mod Running
pub mod Services
mod Examples
