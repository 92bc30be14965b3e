-- ===== src/Ml.antt =====
-- machine_learning.c and its headers: the image file, batches, the network and the connection.
pub mod ByteOrder
pub mod ImageFile
pub mod Dataset
pub mod Network
pub mod Connection
pub mod Main
