-- ===== src/Effects/Inputs.antt =====
-- The arguments and the replies of the calls that leave the code, with their fields as the source
-- writes them.
mod Tables
mod Work
mod Drivers
pub use Tables.*
pub use Work.*
pub use Drivers.*
