-- ===== src/TraceWriter.antt =====
-- src/trace_writer.h and src/trace_writer.cpp: what a trace is made of, and its two formats.
pub mod Pb
pub mod Wire
pub mod Events
pub mod Perfetto
pub mod Marks
pub mod EventMarks
pub mod Slices
pub mod Tracks
pub mod Numbers
pub mod Json
pub mod Writer
