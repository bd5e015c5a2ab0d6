-- ===== src/Auth.antt =====
-- src/auth/node.cpp: the authentication node, which keeps the users in an SQLite database.
pub mod Defs
pub mod Table
pub mod Accounts
pub mod Sessions
mod Examples
