-- ===== src/Ftp.antt =====
-- The directory ftp/: address texts of the FTP commands, and the two stream parsers.
pub mod PasvString
pub mod Buffer
pub mod CommandParser
pub mod ResponseParser
