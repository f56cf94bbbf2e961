-- ===== src/Access.antt =====
-- Who may use the system: the sessions, the permissions and the memberships of the users.
pub mod Records
pub mod Permissions
pub mod Members
pub mod Tokens
pub mod Sessions
pub mod Users
pub mod Employees
pub mod Agenda
pub mod Actor
