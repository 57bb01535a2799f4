-- ===== src/UserFs.antt =====
-- homework03/userfs.c and userfs.h: an in-memory file system of flat files made of blocks.
pub mod State
pub mod Names
pub mod Table
pub mod Blocks
pub mod Api
pub mod Content
pub mod Layout
pub mod Create
mod Round
pub mod Write
pub mod Open
pub mod WriteCall
pub mod Read
pub mod ReadCall
mod Invalid
mod Places
mod Descriptors
pub mod Endless
mod Listed
mod Freed
mod Unlink
mod Delete
mod Unlinked
mod Close
mod Append
mod OpenCall
mod Destroy
mod ListTests
mod Tests
