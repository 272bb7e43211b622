-- ===== src/Events/Database.antt =====
-- The database as the code uses it: TypeORM's calls on the two tables are operations of an
-- interface, whose laws say what the SQL statements do to the rows. Any call may fail.
mod Ordering
mod Defs
mod Instance
mod Letters
pub use Ordering.*
pub use Defs.*
pub use Instance.*
pub use Letters.*
