-- ===== src/DataGen/Prompts.antt =====
-- data-gen/build_prompts.py: the prompts, from the topics and the rows of pass 3.
pub mod Ids
mod Adaptable
pub mod Diets
mod Numbers
mod Written
pub mod Short
mod Topics
mod Excerpt
mod Fill
mod Build
unfoldable pub use Topics.*
unfoldable pub use Excerpt.*
unfoldable pub use Fill.*
unfoldable pub use Build.*
