-- ===== src/Projects.antt =====
-- app/app/domain/workbench/projects.py: the folders of projects inside the workspaces of a machine,
-- the titles, and what a turn of each kind of conversation may do. A text is the list of its code
-- points.
pub mod Text
pub mod Paths
pub mod Workspaces
pub mod Modes
pub mod Cleaning
pub mod Placement
pub mod Permissions
mod Tests
