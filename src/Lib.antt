-- ===== src/Lib.antt =====
-- Verification of CXXAudioUtilities: containers for audio data in C++.
--
-- The program is a set of classes that share no state, some of which use others: the recorder
-- writes to an extended audio file, which reads into a buffer list, which asks a stream description
-- for its sizes; the ring buffers share the rounding of their capacity. This development models those whose own
-- logic is more than a call of the system's audio frameworks:
--   PowerOfTwo          `NextPowerOfTwo`, which every ring buffer sizes its memory with
--   RingBuffer          `SFB::RingBuffer`: Sources/CXXAudioUtilities/SFBRingBuffer.cpp and
--                       include/SFBRingBuffer.hpp; RingBuffer.Values has the typed transfers, and
--                       RingBuffer.Concurrent a reader and a writer whose steps interleave
--   ByteQueue           the bounded queue of bytes that a ring buffer promises to be
--   AudioRingBuffer     `SFB::AudioRingBuffer`: SFBAudioRingBuffer.cpp and
--                       include/SFBAudioRingBuffer.hpp, a block of frames for every channel; its
--                       positions are those of a RingBuffer, and AudioRingBuffer.Refine has the
--                       bounded queue of frames that it promises to be
--   CaRingBuffer        `SFB::CARingBuffer`: SFBCARingBuffer.cpp and include/SFBCARingBuffer.hpp,
--                       frames by their sample time, with the copies of AudioRingBuffer;
--                       CaRingBuffer.Concurrent has the queue of time bounds with one thread that
--                       sets them and one that gets them
--   TimeStamp           `SFB::CATimeStamp`: include/SFBCATimeStamp.hpp
--   PropertyAddress     `SFB::CAPropertyAddress`: include/SFBCAPropertyAddress.hpp
--   ByteStream          `SFB::ByteStream`: include/SFBByteStream.hpp
--   StreamDescription   `SFB::CAStreamBasicDescription`: SFBCAStreamBasicDescription.cpp and
--                       include/SFBCAStreamBasicDescription.hpp
--   BufferList          `SFB::CABufferList`: SFBCABufferList.cpp and include/SFBCABufferList.hpp,
--                       which asks a stream description for its sizes; BufferList.Calls has the
--                       operations made of others and those that throw
--   ExtAudioFile        the open file of `SFB::CAExtAudioFile`, and reading into a buffer list:
--                       include/SFBCAExtAudioFile.hpp
--   AudioUnitRecorder   `SFB::AudioUnitRecorder`: include/SFBAudioUnitRecorder.hpp
--   AuGraph             the loops over the nodes of `SFB::CAAUGraph`: include/SFBCAAUGraph.hpp
--   AudioObject         the property queries of `SFB::CAAudioObject`: include/SFBCAAudioObject.hpp
--   ChannelLayout       `SFB::CAChannelLayout`: SFBCAChannelLayout.cpp and
--                       include/SFBCAChannelLayout.hpp
--   CfWrapper           `SFB::CFWrapper`: include/SFBCFWrapper.hpp; CfWrapper.Pool has a program
--                       with variables of the class, as steps
--   FileWrapper         `SFB::AudioFileWrapper`: include/SFBAudioFileWrapper.hpp, whose text
--                       include/SFBExtAudioFileWrapper.hpp repeats
--   Base                lists, words, bits, the copies of the C library, and results of calls that
--                       may throw
--   Tests               the theorems at concrete inputs
--
-- State and operations. An object is a record with the private members of its class; a method is a
-- function of the same name in the spelling of this library (`BytesAvailableToRead` is
-- `bytes_available_to_read`) that returns the result and the new object. Memory is a list of bytes,
-- a pointer to it an `Option`, a typed value the block of its bytes. `none` in the result of an
-- operation is an access out of bounds or through a null pointer, so that a theorem which says that
-- an operation returns says too that its accesses are inside their blocks. Numbers are natural
-- numbers; `add32`, `sub32`, `mul32` and their 64-bit forms are the arithmetic of the unsigned
-- machine words, with its wrap-around. `malloc`, the byte swaps and the constants of Core Audio's
-- headers are parameters with the laws that their documentation gives.
--
-- Contents and invariants. `RingBuffer.Invariant.Holds r m` says that `r` is allocated with the
-- block `m`, of a power-of-two size, and has its positions inside it; `RingBuffer.Advance.contents`
-- are the stored bytes from the oldest on. `RingBuffer.Advance.Leaves` says what an operation
-- leaves: the invariant, new contents and the same capacity. `ByteStream.Reading.IsValid` and
-- `rest`, `BufferList.Frames.Holds` and `contents`, `AudioRingBuffer.Frames.Holds` and `channels`,
-- and `CaRingBuffer.Timeline.Holds` and `timeline` are the like of the other containers; the last is
-- the audio between the time bounds.
--
-- Threads. RingBuffer.Concurrent cuts `Read` and `Write` at their loads and stores of the positions
-- and interleaves one reader and one writer; CaRingBuffer.Concurrent does the same with
-- `GetTimeBounds` and `SetTimeBounds`, at every load and store of the queue. A step sees what the
-- steps before it stored, which is what the acquire and release orders of the source are for; the
-- times in the queue are not atomic in the source, and here each is stored and loaded whole.
-- Everywhere else a call runs to its end before the next one.
--
-- Exceptions and the system. A call that may throw returns a `Result`: a value or an exception. The
-- state after an exception is part of what the call returns, where the object is still there. What
-- a call of the system returns, a status or a pointer, is an argument or a parameter of the
-- operation; calls that the system must see once, such as the disposal of a file, are kept in a
-- list that is part of the state.
--
-- Ownership. The references to the objects of Core Foundation are counted in a store; the steps of
-- CfWrapper.Pool are those of a program that gives away only references that it has. Objects do not
-- refer to each other.
--
-- Loops run over the bits of a word, the values of a call, the labels of a layout or the buffers of
-- a list, by structural recursion. `GetTimeBounds` has the 8 rounds of the source, each of four
-- accesses.
--
-- Not modelled: the threads of the audio ring buffer and of the frames of the time-stamped one;
-- the names of layouts, tags, formats and errors, which are strings of the system's constants;
-- floating-point results other than comparisons and sums; SMPTE times; and the wrappers of devices,
-- converters and locks, the listeners of audio objects and the other calls of graphs, which call the
-- system's frameworks, check the status and keep no state of their own.
pub mod Base
pub mod PowerOfTwo
pub mod ByteQueue
pub mod RingBuffer
pub mod ByteStream
pub mod StreamDescription
pub mod BufferList
pub mod AudioRingBuffer
pub mod CaRingBuffer
pub mod CfWrapper
pub mod FileWrapper
pub mod ExtAudioFile
pub mod AudioUnitRecorder
pub mod AudioObject
pub mod AuGraph
pub mod ChannelLayout
pub mod TimeStamp
pub mod PropertyAddress
pub mod Tests
