-- ===== src/Notes.antt =====
-- internal/notes: the endpoints of notes, one module for each part.
pub mod Dto
pub mod Tags
pub mod IfMatch
pub mod Etags
pub mod Gathering
pub mod TagRules
pub mod References
pub mod Load
pub mod Filenames
pub mod FilenameRules
pub mod Uploads
pub mod Attachments
pub mod Stored
pub mod Storing
pub mod UploadErrors
pub mod Aimed
pub mod Completing
pub mod Refusing
pub mod Removing
pub mod Gate
pub mod List
pub mod Listed
pub mod Pages
pub mod Following
pub mod Limits
pub mod Handler
pub mod Shares
pub mod Visibility
pub mod Routes
pub mod Access
pub mod Roles
pub mod Errors
pub mod Sound
pub mod Keeping
pub mod Granting
pub mod Updating
pub mod Versions
pub mod Trash
pub mod Recovery
