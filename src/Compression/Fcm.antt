-- ===== src/Compression/Fcm.antt =====
-- libakumuli/storage_engine/compression.h: encode_value, FcmStreamWriter and FcmStreamReader. A double
-- is the 64 bits of its representation, which is all that the code looks at. The byte stream is shared
-- with other codecs by reference: it is passed in, and returned, beside the codec's own fields.
pub mod Writer
pub mod Reader
pub mod Flags
pub mod Bytes
pub mod Writes
pub mod RoundTrip
