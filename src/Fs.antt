-- ===== src/Fs.antt =====
-- fs/: open files, pipes, bitmaps.
pub mod Fd
pub mod Pipe
pub mod Bitmap
pub mod Bmap
pub mod Buffer
