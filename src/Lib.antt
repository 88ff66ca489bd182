-- ===== src/Lib.antt =====
-- Verification of DKLibrary: the byte streams, dates and times of LibraryBase, and the queues, the
-- framing and the handlers of LibraryNet that carry messages over a connection.
--
-- The program. LibraryBase/StreamBuf.h is a block of malloc'ed bytes, LibraryBase/Stream.h a buffer
-- with a read and a write cursor over such a block, with << and >> for scalars, strings, containers
-- and maps. LibraryNet/RecvQueue keeps what a socket has received as a queue of streams: prepare makes
-- room, the socket writes to the buffers, commit makes the bytes readable. LibraryNet/Encoder writes a
-- message to a stream as a frame, encode, and takes frames off a RecvQueue, decode.
-- LibraryNet/SendQueue keeps what is to be sent, and LibraryBase/OptimizedFlippableQueue.h hands
-- events from many producers to one consumer. A TCPEventListener finds the handler of a message by its
-- number; the handler reads the message from the stream and calls back. A TCPService starts servers
-- and connects sessions. LibraryBase also has dates, times, the prefixes of log lines and a base of
-- singletons.
--
-- The files. Common: names of the libraries, tests on numbers, lists, size_t arithmetic, powers of
-- two, Integer for signed numbers, and Effects, the type of a call that returns or throws and leaves a
-- state. StreamBuf: allocate, nextPow2 and deallocate. Stream: the class Stream with OStreamVerifier
-- and IStreamVerifier; Stream/Codec: the operators, get_ for >> and put_ for <<; Stream/Shared: the
-- copies of a Stream, over a heap of blocks; Stream/Lifetimes: the use counts of the blocks, and when
-- they are freed. RecvQueue, SendQueue, FlippableQueue: the classes of those names. Options:
-- options::Send of LibraryNet/Options.h. Message: TCPMessage of LibraryNet/TCPMessage.h and the
-- heartbeat messages of LibraryNet/Encoder.h; Message/Types: TCPMessageT and FBMessageAdaptorT.
-- Encoder: LibraryNet/Encoder.cpp, with NullEncoder of LibraryNet/TCPService.h in Encoder/Null, what
-- follows the life of a session in Encoder/Lifecycle, what decode is to do with any bytes, as a
-- function on lists of bytes, in Encoder/Parsing, and the two ends of a connection in
-- Encoder/Connection. MessageHandler, Event, EventListener: LibraryNet/TCPMessageHandler.h, TCPEvent.h
-- and TCPEventListener.h. Session: LibraryNet/TCPSession.h, with its members, its end points and the
-- calls of its methods in the files under it. Service: LibraryNet/TCPAcceptor.h and TCPService.h.
-- Date, KTime, SteadyTime, Utils, Logger, Singleton: the files of those names of LibraryBase;
-- Calendar: what they use of the C and C++ libraries. Tests: runs, and the theorems at inputs.
--
-- How the model reads the code. A method that cannot fail is a function on the state; one that throws
-- or asserts is a function to an Outcome, which holds the state at that point. A failed assert is the
-- fault `assertion`. A byte is a number; a size_t computation has its wrap at 2 ^ 64 written out, and
-- the theorems speak of blocks of at most 2 ^ 48 bytes, for which no sum wraps. malloc and realloc are
-- taken to succeed, as the code takes them to. The bytes that they leave, and what pow(2,
-- ceil(log2(n))) gives in doubles, are a parameter, the record Memory of StreamBuf, whose law says
-- that the latter is the least power of two not below n for n up to 2 ^ 48. Scalars are unsigned bit
-- patterns, stored little-endian. The loops of RecvQueue::pop and SendQueue::consume take fuel, one
-- round for each stream and one or two more, and the theorems about pop and consume show that it is
-- enough.
--
-- Parameters. The virtual methods of Encoder are the record Coding, and Encoder/Contract states what a
-- derived encoder has to do; NullEncoder does. What boost::asio does to the buffers is the relation
-- Filled of RecvQueue/Arrival, and scatter of RecvQueue/Buffers writes to them as it has to.
-- localtime_s and mktime, which depend on the machine's time zone, are the record Zone of Calendar;
-- the readings of the clocks are arguments, and the ticks of system_clock the record SystemClock of
-- SteadyTime. The overflow of the int in Date::daysAfter and of the int64_t durations of SteadyTime is
-- undefined, and is none. The calls of FlatBuffers are arguments of Message/Types. The methods of
-- TCPSession, TCPAcceptor, TCPService and TCPEventListener that are declared and have no body in the
-- repository are the records Methods, AcceptorMethods, ServiceMethods and ListenerMethods.
--
-- Not modelled. Of the repository's own code, what is left is includes, declarations without a body
-- and members of boost::asio: buffers, size, empty, front, frontSize and popFront of SendQueue, which
-- are declared and have no body, and the sockets, strands and mutexes of TCPSession, TCPAcceptor and
-- TCPService. The destructors of classes other than Stream, StreamBuf and Singleton are left out.
-- strftime, std::get_time and snprintf are modelled for the formats that the code passes, at numbers
-- that have the width of their field where the standard leaves more to them. FlatBuffers, under
-- SpecialThx, is another project. addMessageCallback of TCPEventListener is left out, as it makes a
-- TCPMessageHandlerT<TCPMessage>, which cannot be instantiated: TCPMessage has neither kNo nor
-- deserialize. What a failed >> leaves in the variable that it reads into is not modelled.
pub mod Common
pub mod FlippableQueue
pub mod StreamBuf
pub mod Stream
pub mod RecvQueue
pub mod SendQueue
pub mod Options
pub mod Message
pub mod Encoder
pub mod MessageHandler
pub mod Event
pub mod EventListener
pub mod Session
pub mod Service
pub mod Calendar
pub mod Date
pub mod Utils
pub mod Logger
pub mod SteadyTime
pub mod KTime
pub mod Singleton
pub mod Tests
