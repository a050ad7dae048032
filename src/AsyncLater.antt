-- ===== src/AsyncLater.antt =====
-- libraries/async-later/src: values that arrive later, as an iterable. `Later` is the queue of
-- promises of `iterateLater`, `Partition` splits a stream in two, `Values` reads single values.
pub mod Later
pub mod Partition
pub mod Values
pub mod Convert
